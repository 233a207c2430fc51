-- ===== src/Workqueue/Tests.antt =====
-- Runs of pkg/utils/workqueue/playboyqueue.go on small inputs, after playboyqueue_test.go, and the
-- theorems at such inputs. Items are numbers.
use k8s_controller_the_hard.Prelude.{
  blocked, ℕ, suc, ◌≡◌, refl, inl, true, false, not, arith, if◌then◌else◌, none, some, [], ◌∷◌,
  ◌++◌, ℕ_discrete as dec,
}
use k8s_controller_the_hard.Prelude.Int.{pos}
use k8s_controller_the_hard.Prelude.GoMap
use k8s_controller_the_hard.Prelude.GoMap.{GoMap}
use k8s_controller_the_hard.Workqueue.Metrics
use k8s_controller_the_hard.Workqueue.Set.{has, insert, delete}
use k8s_controller_the_hard.Workqueue.Queue.Steps.{
  adds, dones, forgets, gets, shuts_down, Ensures, step, Reach, start, later, here, next,
}
use k8s_controller_the_hard.Workqueue.Queue.Parts.{
  Mixes, begins, goes, part, whole, counts_failure, asks_limiter, adds_judged, Mixes-IsValid,
}
use k8s_controller_the_hard.Workqueue.Queue.Invariant.{IsValid, Reach-IsValid}
use k8s_controller_the_hard.Workqueue.Queue.Delivery.{
  Delivers, DeliversFresh, get-Delivers, get_fresh-Delivers,
}
use k8s_controller_the_hard.Workqueue.Queue.Refinement.{Makes, label, step-Makes}
use k8s_controller_the_hard.Workqueue.Queue.Counters.{CountsRequeues}
use k8s_controller_the_hard.Workqueue.Queue.Requeue.{Appended, done_inverts}
use k8s_controller_the_hard.Workqueue.Queue.Panic.{is_panic, add_after_panics}
use k8s_controller_the_hard.Workqueue.Queue.Drain.{get_all, get_all_drains}
use k8s_controller_the_hard.Workqueue.Interface.{shut_down_with_drain, shutting_down}
use k8s_controller_the_hard.Workqueue.Interface.Blocked.{drain-blocked}
use k8s_controller_the_hard.Workqueue.Queue.{
  Queue, RateLimiter, shutdown, wait, new_named_playboy_queue, queue_len, add, add_fresh_or_staled,
  get, get_fresh, done, is_fresh, add_after, failures_of, shut_down, wait_for_processing,
}

abbrev State : Type 0
State = GoMap ℕ ℕ

requeues : ℕ → State → ℕ
requeues item s = elim (GoMap.get dec s item) [ none ↦ 0 | some n ↦ n ]

-- A limiter that counts, with a delay of 5.
abbrev counting : RateLimiter ℕ State
counting = record {
  when = λ item s. (pos 5, GoMap.put dec s item (suc (requeues item s)));
  num_requeues = requeues;
  forget = λ item s. GoMap.remove dec s item;
}

counting-CountsRequeues : CountsRequeues dec counting
unfolding requeues
counting-CountsRequeues = record {
  after_when = λ x y s. ground (arith, GoMap.get-put dec s x y (suc (requeues x s)));
  after_forget = λ x y s. ground (arith, GoMap.get-remove dec s x y);
}

counting-zeros : (x : ℕ) → counting.num_requeues x [] ≡ 0
unfolding requeues GoMap.get
counting-zeros x = refl

abbrev fresh_queue : Queue ℕ State
fresh_queue = new_named_playboy_queue 3 [] "" Metrics.noop_pointer

-- Item 7 was added, and was added again while in process.
abbrev busy : Queue ℕ State
busy = add dec 3 (get dec 2 (add dec 1 fresh_queue 7)).0 7

busy-Reach : Reach dec counting 3 [] "" Metrics.noop_pointer busy
unfolding step
busy-Reach =
    later 3 (adds 7) (later 2 gets (later 1 (adds 7) start tt (inl refl)) tt (inl refl)) tt
      (inl refl)

abbrev queued : Queue ℕ State
queued = add dec 1 fresh_queue 7

queued-Reach : Reach dec counting 3 [] "" Metrics.noop_pointer queued
unfolding step
queued-Reach = later 1 (adds 7) start tt (inl refl)

Reach-IsValid_example : IsValid dec busy
Reach-IsValid_example = Reach-IsValid dec counting busy-Reach

get-Delivers_example : Delivers dec queued (get dec 2 queued)
get-Delivers_example = get-Delivers dec 2 queued (Reach-IsValid dec counting queued-Reach)

get_fresh-Delivers_example : DeliversFresh dec queued (get_fresh dec 2 queued)
get_fresh-Delivers_example =
    get_fresh-Delivers dec 2 queued (Reach-IsValid dec counting queued-Reach)

step-Makes_example :
    Ensures
      (Makes dec counting (label dec counting 4 busy (dones 7)) busy)
      (step dec counting 4 busy (dones 7))
step-Makes_example = step-Makes dec counting 4 busy (dones 7) Reach-IsValid_example

-- The item failed, and between the count of the failure and the call of `When` it was forgotten and
-- the queue was shut down; then the rest of `AddAfter` runs.
mixed : (q : Queue ℕ State) × Mixes dec counting 3 [] "" Metrics.noop_pointer q
unfolding part step
mixed = (
  _,
  goes 6 (adds_judged false 7)
      (goes 5 (asks_limiter 7)
        (goes 4 (whole shuts_down)
          (goes 3 (whole (forgets 7))
            (goes 2 (counts_failure 7) (goes 1 (whole (adds 7)) begins tt (inl refl)) tt (inl refl))
            tt (inl refl))
          tt (inl refl))
        tt (inl refl))
      tt (inl refl),
)

Mixes-IsValid_example : IsValid dec mixed.0
Mixes-IsValid_example = Mixes-IsValid dec counting mixed.1

program : Unit {0}
unfolding new_named_playboy_queue add add_fresh_or_staled get done has insert delete dec requeues
    GoMap.get shut_down is_fresh failures_of Metrics.new_metrics
program = tt

-- The first retry of an item that was never retried goes to the staled queue.
done_inverts_example : Appended (not (is_fresh dec busy 7)) busy 7 (done dec counting 4 busy 7)
unfolding program
done_inverts_example =
    done_inverts dec counting counting-CountsRequeues counting-zeros busy-Reach 4 7 refl

first_retry : (done dec counting 4 busy 7).queue_staled ≡ 7 ∷ []
unfolding program
first_retry = refl

abbrev named_queue : Queue ℕ State
named_queue = new_named_playboy_queue 3 [] "redis" Metrics.noop_pointer

named-Reach : Reach dec counting 3 [] "redis" Metrics.noop_pointer named_queue
named-Reach = start

add_after_panics_example : is_panic (add_after dec 4 true named_queue 7 (pos 5)) ≡ true
unfolding new_named_playboy_queue Metrics.is_empty Metrics.is_noop_value
add_after_panics_example = add_after_panics dec counting named-Reach refl 4 true 7 (pos 5)

get_all_drains_example :
    get_all dec 2 5 queued
    ≡ some
        (queued.queue_fresh ++ queued.queue_staled, if queued.shutting_down then shutdown else wait)
unfolding program queue_len
get_all_drains_example = get_all_drains dec 2 5 queued (omega arith)

-- Item 7 is in process, and the queue was shut down.
abbrev closing : Queue ℕ State
closing = shut_down (get dec 2 queued).0

abbrev taken : Queue ℕ State
taken = (get dec 2 queued).0

taken-Reach : Reach dec counting 3 [] "" Metrics.noop_pointer taken
unfolding step
taken-Reach = later 2 gets queued-Reach tt (inl refl)

taken_none : (x : ℕ) → has dec taken.dirty x ≡ false
unfolding program
taken_none x = refl

drain-blocked_example :
    (shut_down_with_drain taken ≡ blocked (shut_down taken))
    × (shutting_down (shut_down taken) ≡ true)
    × ((done dec counting 4 closing 7).cond ≡ (shut_down taken).cond)
unfolding program step
drain-blocked_example =
    drain-blocked dec counting 7 taken-Reach refl taken_none (next 4 (dones 7) here refl (inl refl))

-- `ShutDownWithDrain` waits there.
closing_waits : wait_for_processing closing ≡ true
unfolding program wait_for_processing
closing_waits = refl
