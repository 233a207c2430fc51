-- ===== src/Controller/Build/ObjectKeys.antt =====
-- pkg/utils/controller: `EnqueueObject` against `processItemFromQueue`.
use Prim.Native.String.{String}
use k8s_controller_the_hard.Prelude.{ℕ, ◌≡◌, refl, Bool, true, false, List, [], ◌∷◌, arith, panic}
use k8s_controller_the_hard.Workqueue.Set.{has}
use k8s_controller_the_hard.Workqueue.Queue.{
  Queue, RateLimiter, Got, got, add, add_fresh_or_staled, get, get_fresh,
}
use k8s_controller_the_hard.Controller.Worker.{
  Outcome, interface_of, process_got, process_item_from_queue,
}
use k8s_controller_the_hard.Controller.Build.{Item, object_key, as_string, enqueue_object}

module _ {K S : Type 0} (dec : Discrete K) where
  get-got :
      (now : ℕ) (q : Queue K S) (x : K) (rest : List K)
      → q.queue_fresh ≡ x ∷ rest
      → (get dec now q).1 ≡ got x
  unfolding get
  get-got now q x rest e = ground arith

  get_fresh-got :
      (now : ℕ) (q : Queue K S) (x : K) (rest : List K)
      → q.queue_fresh ≡ x ∷ rest
      → (get_fresh dec now q).1 ≡ got x
  unfolding get_fresh
  get_fresh-got now q x rest e = ground arith

  add-fresh :
      (now : ℕ) (q : Queue K S) (x : K)
      → q.shutting_down ≡ false
      → q.queue_fresh ≡ []
      → has dec q.dirty x ≡ false
      → has dec q.processing x ≡ false
      → (add dec now q x).queue_fresh ≡ x ∷ []
  unfolding add add_fresh_or_staled
  add-fresh now q x up e d p = ground arith

module _ {S : Type 0} (dec : Discrete Item) (limiter : RateLimiter Item S) (pick : Bool)
    (clock : ℕ → ℕ) (reconcile : String → Queue Item S → Queue Item S × Outcome) where
  process_got-panic :
      (fresh : Bool) (q : Queue Item S) (g : Got Item) (namespace name : String)
      → g ≡ got (object_key namespace name)
      → process_got (interface_of dec limiter pick fresh) clock as_string reconcile (q, g) ≡ panic
  process_got-panic fresh q g namespace name e = rw e refl

  -- `EnqueueObject` adds an `ObjectKey` where the workers assert a string. On a queue that is not
  -- shut down and has no fresh item, with the object neither requested nor in process, the next
  -- round of a fresh or of a staled worker panics, whatever the reconciler is.
  pub enqueue_object_panics :
      (fresh : Bool) (now : ℕ) (q : Queue Item S) (namespace name : String)
      → q.shutting_down ≡ false
      → q.queue_fresh ≡ []
      → has dec q.dirty (object_key namespace name) ≡ false
      → has dec q.processing (object_key namespace name) ≡ false
      → process_item_from_queue
          (interface_of dec limiter pick fresh)
          clock
          as_string
          reconcile
          (enqueue_object (interface_of dec limiter pick false) now q namespace name)
        ≡ panic
  unfolding process_item_from_queue enqueue_object
  enqueue_object_panics true now q namespace name up e d p =
      process_got-panic true _ _ namespace name
        (get_fresh-got dec (clock 0) _ _ [] (add-fresh dec now q _ up e d p))
  enqueue_object_panics false now q namespace name up e d p =
      process_got-panic false _ _ namespace name
        (get-got dec (clock 0) _ _ [] (add-fresh dec now q _ up e d p))
