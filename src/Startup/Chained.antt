-- ===== src/Startup/Chained.antt =====
-- main.go: what the events on the resources and on their children come to, through the handlers and
-- the reconcilers that `main` sets up.
use Prim.Native.String.{String}
use k8s_controller_the_hard.Prelude.{
  ℕ, ◌≡◌, ◌⊎◌, inl, inr, refl, sym, ◌∙◌, Option, none, some, Bool-cases, false≢true,
}
use k8s_controller_the_hard.Controller.Predicate.{GroupVersionKind}
use k8s_controller_the_hard.Controller.Predicate.Laws.{
  Event, Watched, watch_predicate, watch_predicate_iff, accepts,
}
use k8s_controller_the_hard.Controller.Worker.{RateLimitingInterface}
use k8s_controller_the_hard.Controller.Handler.{new_enqueue_handler, enqueue_key}
use k8s_controller_the_hard.Controller.Handler.Kept.{handle, handle-eq, object_of}
use k8s_controller_the_hard.Controller.Build.{Item, key, Registration, watch_registration}
use k8s_controller_the_hard.Reconcilers.Redis.{parse_redis_key_from_obj}
use k8s_controller_the_hard.Startup.{
  World, Libraries, redis_interface, watch_owned, disable_resync, redis_key_of, as_key,
}

module _ {Q W : Type 0} (workqueue : RateLimitingInterface Item Q) (now : ℕ) where
  -- The world with a key more in the queue of the Redis controller.
  abbrev pub request_redis : World Q W → Option String → World Q W
  request_redis w none = w
  request_redis w (some name) = record w {
    redis_queue = workqueue.add now w.redis_queue (key name);
  }

module _ {O : Type 0} (lib : Libraries O) (dec : Discrete String) where
  -- What `ParseRedisKeyFromObj` finds.
  abbrev pub parent_of : O → Option String
  parent_of obj = parse_redis_key_from_obj dec (lib.is_deleted_state obj) (lib.accessor obj)

module _ {O Q W : Type 0} (lib : Libraries O) (dec : Discrete String)
    (workqueue : RateLimitingInterface Item Q) (gvk : GroupVersionKind) (now : ℕ) where
  -- The handler that `main` registers for a kind of children.
  abbrev pub child_registration : O → Registration O (World Q W)
  child_registration resource =
      watch_registration (redis_interface workqueue) (watch_owned lib dec gvk resource)
        disable_resync

  handle-taken :
      (resource : O) (w : World Q W) (m : Option String)
      → enqueue_key (child_registration resource).handler now w (as_key m)
        ≡ request_redis workqueue now w m
  unfolding new_enqueue_handler
  handle-taken resource w none = refl
  handle-taken resource w (some name) = refl

  -- An event on a StatefulSet or a Service, as the handler that `main` registers for it sees it,
  -- either is an update that concerns a Redis, and the key of the parent of the new object, if it has
  -- one, is added to the queue of the Redis controller; or it is not, as no add and no delete is, and
  -- nothing changes.
  pub child_event-cases :
      (resource : O) (w : World Q W) (e : Event O)
      → (Watched lib.accessor gvk e
          × (handle (child_registration resource).handler now w e
              ≡ request_redis workqueue now w (parent_of lib dec (object_of e))))
        ⊎ ((¬ Watched lib.accessor gvk e)
            × (handle (child_registration resource).handler now w e ≡ w))
  child_event-cases resource w e =
      let eq =
        handle-eq (redis_interface workqueue) (redis_key_of lib dec)
          (some (watch_predicate lib.accessor gvk)) now w e in
      let iff = watch_predicate_iff lib.accessor gvk e in
      elim (Bool-cases (accepts (watch_predicate lib.accessor gvk) e)) [
        | inl y ↦
            inl
              (iff.0 y, eq ∙ rw (y, handle-taken resource w (parent_of lib dec (object_of e))) refl)
        | inr n ↦ inr (λ h. false≢true (sym n ∙ iff.1 h), eq ∙ rw n refl)
      ]
