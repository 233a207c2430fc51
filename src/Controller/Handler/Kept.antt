-- ===== src/Controller/Handler/Kept.antt =====
-- pkg/utils/controller/controller.go and worker.go: what becomes of an event.
use Prim.Native.String.{String}
use k8s_controller_the_hard.Prelude.{
  ℕ, ◌≡◌, refl, Bool, true, false, not, ◌&&◌, ◌||◌, ite, Option, none, some, arith, if◌then◌else◌,
  ok, ◌∙◌, List, [], ◌∷◌,
}
use k8s_controller_the_hard.Workqueue.Set.{has}
use k8s_controller_the_hard.Workqueue.Queue.{Queue, RateLimiter, got}
use k8s_controller_the_hard.Controller.Predicate.{Predicate}
use k8s_controller_the_hard.Controller.Predicate.Laws.{Event, added, updated, deleted, accepts}
use k8s_controller_the_hard.Controller.Worker.{
  RateLimitingInterface, Outcome, interface_of, process_item_from_queue,
}
use k8s_controller_the_hard.Controller.Worker.Laws.{IsOpen, add-up, add-dirty}
use k8s_controller_the_hard.Controller.Worker.Settles.{is_queued, process-Settled}
use k8s_controller_the_hard.Controller.Handler.{
  EnqueueHandler, new_enqueue_handler, enqueue_key, on_add, on_update, on_delete,
}

module _ {O : Type 0} where
  -- The object whose key is enqueued.
  abbrev pub object_of : Event O → O
  object_of (added obj) = obj
  object_of (updated old new) = new
  object_of (deleted obj) = obj

  -- A nil predicate accepts every event.
  abbrev pub accepts_event : Option (Predicate O) → Event O → Bool
  accepts_event none e = true
  accepts_event (some p) e = accepts p e

module _ {O K Q : Type 0} where
  -- The method of the handler for the event.
  abbrev pub handle : EnqueueHandler O K Q → ℕ → Q → Event O → Q
  handle eh now q (added obj) = on_add eh now q obj
  handle eh now q (updated old new) = on_update eh now q old new
  handle eh now q (deleted obj) = on_delete eh now q obj

  -- The handler adds the key of the object exactly if the predicate accepts the event.
  pub handle-eq :
      (iface : RateLimitingInterface K Q) (key_of : O → Option K) (p : Option (Predicate O))
      (now : ℕ) (q : Q) (e : Event O)
      → handle (new_enqueue_handler iface key_of p) now q e ≡ (
          if accepts_event p e
          then enqueue_key (new_enqueue_handler iface key_of p) now q (key_of (object_of e))
          else q)
  unfolding on_add on_update on_delete new_enqueue_handler
  handle-eq iface key_of none now q (added obj) = ground arith
  handle-eq iface key_of none now q (updated old new) = ground arith
  handle-eq iface key_of none now q (deleted obj) = ground arith
  handle-eq iface key_of (some p) now q (added obj) = ground arith
  handle-eq iface key_of (some p) now q (updated old new) = ground arith
  handle-eq iface key_of (some p) now q (deleted obj) = ground arith

  -- Events handled at their times, one after the other.
  unfoldable pub handle_all : EnqueueHandler O K Q → Q → List (ℕ × Event O) → Q
  handle_all eh q [] = q
  handle_all eh q ((now, e) ∷ es) = handle_all eh (handle eh now q e) es

module _ {O K S : Type 0} (dec : Discrete K) (limiter : RateLimiter K S) (pick : Bool)
    (key_of : O → Option K) (p : Option (Predicate O)) where
  abbrev pub handler : EnqueueHandler O K (Queue K S)
  handler = new_enqueue_handler (interface_of dec limiter pick false) key_of p

  -- Whether the event requests the key.
  abbrev pub requests_key : Event O → K → Bool
  requests_key e key =
      accepts_event p e
      && elim (key_of (object_of e)) [ none ↦ false | some k ↦ ite (dec k key) true false ]

  enqueue-dirty :
      (now : ℕ) (q : Queue K S) (k : Option K) (key : K)
      → has dec (enqueue_key handler now q k).dirty key ≡ (
          has dec q.dirty key
          || (elim k [ none ↦ false | some j ↦ ite (dec j key) true false ] && not q.shutting_down))
  unfolding new_enqueue_handler
  enqueue-dirty now q none key = ground arith
  enqueue-dirty now q (some k) key = add-dirty dec now q k key

  handle-dirty :
      (now : ℕ) (q : Queue K S) (e : Event O) (key : K)
      → has dec (handle handler now q e).dirty key
        ≡ (has dec q.dirty key || (requests_key e key && not q.shutting_down))
  handle-dirty now q e key =
      rw (handle-eq (interface_of dec limiter pick false) key_of p now q e)
        (ground (arith, enqueue-dirty now q (key_of (object_of e)) key))

  enqueue-up :
      (now : ℕ) (q : Queue K S) (k : Option K)
      → (enqueue_key handler now q k).shutting_down ≡ q.shutting_down
  unfolding new_enqueue_handler
  enqueue-up now q none = refl
  enqueue-up now q (some k) = add-up dec now q k

  handle-up :
      (now : ℕ) (q : Queue K S) (e : Event O)
      → (handle handler now q e).shutting_down ≡ q.shutting_down
  handle-up now q e =
      rw (handle-eq (interface_of dec limiter pick false) key_of p now q e)
        (ground (arith, enqueue-up now q (key_of (object_of e))))

  -- Whether one of the events requests the key.
  abbrev pub any_requests : List (ℕ × Event O) → K → Bool
  any_requests [] key = false
  any_requests ((now, e) ∷ es) key = requests_key e key || any_requests es key

  handle_all-up :
      (q : Queue K S) (es : List (ℕ × Event O))
      → (handle_all handler q es).shutting_down ≡ q.shutting_down
  unfolding handle_all
  handle_all-up q [] = refl
  handle_all-up q ((now, e) ∷ es) = handle_all-up (handle handler now q e) es ∙ handle-up now q e

  -- A sequence of events requests, besides what was requested, exactly the keys of those that the
  -- predicate accepts and whose object has a key; after a shutdown, nothing.
  pub handle_all-dirty :
      (q : Queue K S) (es : List (ℕ × Event O)) (key : K)
      → has dec (handle_all handler q es).dirty key
        ≡ (has dec q.dirty key || (any_requests es key && not q.shutting_down))
  unfolding handle_all
  handle_all-dirty q [] key = ground arith
  handle_all-dirty q ((now, e) ∷ es) key = ground (
    arith,
    handle_all-dirty (handle handler now q e) es key,
    handle-dirty now q e key,
    handle-up now q e,
  )

  -- An event for an item that arrives while a worker reconciles the item is not lost: after the
  -- round, whatever it returned, the item is not in process, it is requested, and it stands in the
  -- fresh or in the staled queue. The queue is not shut down, its metrics are off, and the channel of
  -- delayed items has room at the end of `reconcile`.
  pub events_kept :
      (fresh : Bool) (clock : ℕ → ℕ) (as_string : K → Option String) (es : List (ℕ × Event O))
      (decide : String → Queue K S → Outcome) (q : Queue K S) {taken : Queue K S} {item : K}
      {key : String}
      → (interface_of dec limiter pick fresh).get (clock 0) q ≡ (taken, got item)
      → as_string item ≡ some key
      → IsOpen (handle_all handler taken es)
      → taken.shutting_down ≡ false
      → any_requests es item ≡ true
      → (r : Queue K S) × (process_item_from_queue
            (interface_of dec limiter pick fresh)
            clock
            as_string
            (λ s t. (handle_all handler t es, decide s t))
            q
          ≡ ok (r, true))
        × (has dec r.processing item ≡ false)
        × (has dec r.dirty item ≡ true)
        × (is_queued dec r item ≡ true)
  events_kept fresh clock as_string es decide q {taken} {item} g s o up any =
      let (r, e, free, n, d, placed) =
        process-Settled dec limiter as_string (λ s t. (handle_all handler t es, decide s t)) fresh
          clock pick q g s refl o in
      let requested : has dec r.dirty item ≡ true =
        ground (arith, d, handle_all-dirty taken es item) in
      (r, e, free, requested, ground (arith, placed))
