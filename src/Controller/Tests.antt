-- ===== src/Controller/Tests.antt =====
-- pkg/utils/controller: the theorems at concrete inputs. Objects are numbers, which are their own
-- keys.
use Prim.Native.String.{String}
use k8s_controller_the_hard.Prelude.{
  ℕ, ◌+◌, ◌≡◌, refl, Bool, true, false, Option, none, some, List, [], ◌∷◌, ok, panic,
  String-discrete, ℕ_discrete as dec, arith,
}
use k8s_controller_the_hard.Prelude.Int.{ℤ, pos}
use k8s_controller_the_hard.Workqueue.Metrics
use k8s_controller_the_hard.Workqueue.Set.{has, insert, delete}
use k8s_controller_the_hard.Workqueue.Queue.{
  Queue, RateLimiter, new_named_playboy_queue, add, add_fresh_or_staled, get, shut_down,
}
use k8s_controller_the_hard.Controller.Predicate.Laws.{Event, added, updated}
use k8s_controller_the_hard.Controller.Worker.{
  Outcome, failed, succeeded, RateLimitingInterface, interface_of, playboy_interface,
  process_item_from_queue,
}
use k8s_controller_the_hard.Controller.Worker.Laws.{IsOpen}
use k8s_controller_the_hard.Controller.Worker.Settles.{is_queued, Settled, process-Settled}
use k8s_controller_the_hard.Controller.Handler.{get_name, new_enqueue_handler, on_add, on_update}
use k8s_controller_the_hard.Controller.Handler.Kept.{handle_all, handler, events_kept}
use k8s_controller_the_hard.Controller.Build.{
  Item, key, as_string, WatchOption, Options, Worker, built, crashed, main_registration,
  new_playboy_type, new_basic_controller, enqueue_object,
}
use k8s_controller_the_hard.Controller.Build.Registers.{
  watches, new_playboy_type-Registers, new_basic_controller_crashes,
}
use k8s_controller_the_hard.Controller.Build.ObjectKeys.{enqueue_object_panics}

-- A limiter with a delay of 5.
abbrev steady : {K : Type 0} → RateLimiter K (Unit {0})
steady = record { when = λ _ s. (pos 5, s); num_requeues = λ _ _. 0; forget = λ _ s. s }

abbrev clock : ℕ → ℕ
clock n = 10 + n

abbrev empty_queue : {K : Type 0} → Queue K (Unit {0})
empty_queue = new_named_playboy_queue 3 tt "" Metrics.noop_pointer

abbrev queued : Queue ℕ (Unit {0})
queued = add dec 1 empty_queue 7

abbrev taken : Queue ℕ (Unit {0})
taken = (get dec 10 queued).0

abbrev later : Outcome
later = succeeded (record { requeue = false; requeue_after = pos 60 })

program : Unit {0}
unfolding new_named_playboy_queue add add_fresh_or_staled get has insert delete dec Metrics.add
    Metrics.get Metrics.new_metrics Metrics.is_empty Metrics.is_noop_value
program = tt

taken-IsOpen : IsOpen taken
unfolding program
taken-IsOpen = record { unnamed = refl; room = omega arith; closed = refl }

process-Settled_example : Settled dec steady true 0 taken 7 (
    process_item_from_queue
      (interface_of dec steady false false)
      clock
      (λ n. some "7")
      (λ _ q. (q, later))
      queued)
unfolding program
process-Settled_example =
    process-Settled dec steady (λ n. some "7") (λ _ q. (q, later)) false clock false queued refl
      refl refl taken-IsOpen

abbrev events : List (ℕ × Event ℕ)
events = (11, added 3) ∷ (12, updated 1 7) ∷ []

handle_all-IsOpen : IsOpen (handle_all (handler dec steady false some none) taken events)
unfolding program handle_all on_add on_update new_enqueue_handler
handle_all-IsOpen = record { unnamed = refl; room = omega arith; closed = refl }

events_kept_example :
    (r : Queue ℕ (Unit {0})) × (process_item_from_queue
        (interface_of dec steady false false)
        clock
        (λ n. some "7")
        (λ s t. (handle_all (handler dec steady false some none) t events, failed))
        queued
      ≡ ok (r, true))
    × (has dec r.processing 7 ≡ false)
    × (has dec r.dirty 7 ≡ true)
    × (is_queued dec r 7 ≡ true)
unfolding program
events_kept_example =
    events_kept dec steady false some none false clock (λ n. some "7") events (λ _ _. failed) queued
      refl refl handle_all-IsOpen refl refl

Item-discrete : Discrete Item
Item-discrete = hlevel (String-discrete)

abbrev objects : Queue Item (Unit {0})
objects = empty_queue

abbrev never : {Q : Type 0} → String → Q → Q × Outcome
never s q = (q, failed)

enqueue_object_panics_example :
    process_item_from_queue
      (interface_of Item-discrete steady false true)
      clock
      as_string
      never
      (enqueue_object (interface_of Item-discrete steady false false) 1 objects "ns" "redis")
    ≡ panic
unfolding program
enqueue_object_panics_example =
    enqueue_object_panics Item-discrete steady false clock never true 1 objects "ns" "redis" refl
      refl refl refl

abbrev objects_interface : RateLimitingInterface Item (Queue Item (Unit {0}))
objects_interface = playboy_interface Item-discrete steady false

abbrev number_key : ℕ → Option Item
number_key n = some (key "n")

abbrev group_kind : ℕ → Option String
group_kind n = some "Redis.demo"

abbrev informs : ℕ → Bool
informs n = true

abbrev hourly : WatchOption ℕ
hourly = record {
  resource = 2;
  predicate = none;
  get_key_func = number_key;
  resync_period = some (pos 60);
}

abbrev options : Option ℤ → Options ℕ (Queue Item (Unit {0}))
options period = record {
  name = "";
  resource = some 1;
  reconciler = some never;
  predicate = none;
  resync_period = period;
  watch_options = hourly ∷ [];
}

abbrev worker : Worker
worker = record { reconcile_timeout = pos 5; concurrency = pos 2 }

new_playboy_type-Registers_example :
    new_playboy_type group_kind informs number_key objects_interface
      (options (some (pos 9)))
      worker
      worker
    ≡ (
      main_registration objects_interface number_key (options (some (pos 9))) 1
          ∷ watches objects_interface (some (pos 9)) (hourly ∷ []),
      built (record {
        reconciler = never;
        queue = objects_interface;
        fresh_worker = worker;
        staled_worker = worker;
        logger_name = get_name "" (group_kind 1);
      }),
    )
new_playboy_type-Registers_example =
    new_playboy_type-Registers group_kind informs number_key objects_interface
      (options (some (pos 9))) worker worker refl refl ("Redis.demo", refl, refl)
      ((("Redis.demo", refl, refl), tt), tt)

new_basic_controller_crashes_example :
    new_basic_controller group_kind informs number_key objects_interface
      (options none)
      (pos 5)
      (pos 2)
    ≡ (main_registration objects_interface number_key (options none) 1 ∷ [], crashed)
new_basic_controller_crashes_example =
    new_basic_controller_crashes group_kind informs number_key objects_interface (options none)
      (pos 5) (pos 2) [] [] hourly (pos 60) refl refl ("Redis.demo", refl, refl) refl refl tt
      ("Redis.demo", refl, refl) refl

abbrev closing : Queue ℕ (Unit {0})
closing = shut_down queued
