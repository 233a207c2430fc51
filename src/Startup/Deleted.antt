-- ===== src/Startup/Deleted.antt =====
-- main.go and pkg/kubernetes/reconcilers/redis.go: what becomes of a deleted Redis.
use Prim.Native.String.{String}
use k8s_controller_the_hard.Prelude.{ℕ, ◌≡◌, refl, Bool, true, false, Option, none, some, ok, arith}
use k8s_controller_the_hard.Workqueue.Queue.{got}
use k8s_controller_the_hard.Controller.Predicate.{GroupVersionKind}
use k8s_controller_the_hard.Controller.Predicate.Laws.{deleted}
use k8s_controller_the_hard.Controller.Worker.{
  RateLimitingInterface, Outcome, succeeded, handle_outcome, process_item_from_queue,
}
use k8s_controller_the_hard.Controller.Handler.{EnqueueHandler, new_enqueue_handler, on_delete}
use k8s_controller_the_hard.Controller.Handler.Kept.{handle}
use k8s_controller_the_hard.Controller.Build.{
  Item, key, as_string, Registration, main_registration, enqueue,
}
use k8s_controller_the_hard.Reconcilers.Tenant.{
  ObjectKey, Found, found, not_found, get_error, is_deleted, no_result,
}
use k8s_controller_the_hard.Reconcilers.Redis.{Redis, with_redis, reconcile_redis, reconcile}
use k8s_controller_the_hard.Reconcilers.Redis.Reports.{HasTenant, listed, tenants-HasTenant}
use k8s_controller_the_hard.Startup.{
  World, Libraries, Clients, redis_interface, redis_reconciler, redis_options, notify_all,
}
use k8s_controller_the_hard.Startup.Registered.{redises_controller, notify_tenant}

-- The Redis is deleted: the server has it no more, or with a time of deletion, not paused, and with
-- the label of this tenant.
abbrev pub IsGone : Discrete String → Found Redis → Option String → Type 0
IsGone dec not_found none = Unit {0}
IsGone dec (found redis) t =
    (redis.pause ≡ false) × (is_deleted redis.deletion_timestamp ≡ true) × HasTenant dec redis t
IsGone dec _ _ = ⊥

module _ {Q : Type 0} (workqueue : RateLimitingInterface Item Q) (now : ℕ) where
  -- The queue of the Tenant controller with the key of the tenant added, if there is one.
  abbrev pub told : Q → Option String → Q
  told q none = q
  told q (some tenant) = workqueue.add now q (key tenant)

module _ {F Ow O Q W : Type 0} (lib : Libraries O) (dec : Discrete String)
    (clients : Clients F Ow W) (workqueue : RateLimitingInterface Item Q) (gomaxprocs : ℕ)
    (order : Bool) (now : ℕ) (gvk : GroupVersionKind) where
  abbrev pub redises : String → World Q W → World Q W × Outcome
  redises = (redises_controller lib dec clients workqueue gomaxprocs order now).reconciler

  with_redis-IsGone :
      (w : W) (r : Found Redis) (t : Option String)
      → IsGone dec r t
      → with_redis dec clients.redises clients.own order w r
        ≡ record { server = w; error = none; notified = listed t }
  unfolding reconcile_redis
  with_redis-IsGone w not_found none g = refl
  with_redis-IsGone w not_found (some t) g = absurd g
  with_redis-IsGone w (found redis) t (p, d, h) = ground (arith, tenants-HasTenant dec redis t h)
  with_redis-IsGone w get_error t g = absurd g

  notify_all-told :
      (w : World Q W) (t : Option String)
      → notify_all (notify_tenant workqueue now) w (listed t)
        ≡ record w { tenant_queue = told workqueue now w.tenant_queue t }
  unfolding enqueue
  notify_all-told w none = refl
  notify_all-told w (some t) = refl

  redises-IsGone :
      (name : String) (object : ObjectKey) (w : World Q W) (t : Option String)
      → lib.split name ≡ some object
      → IsGone dec (clients.redises.get object w.server) t
      → redises name w
        ≡ (record w { tenant_queue = told workqueue now w.tenant_queue t }, succeeded no_result)
  unfolding redis_reconciler reconcile
  redises-IsGone name object w t s g =
      rw
        (
          s,
          with_redis-IsGone w.server (clients.redises.get object w.server) t g,
          notify_all-told w t,
        )
        refl

  -- The handler that `main` registers for the Redis objects.
  abbrev pub redis_handler : EnqueueHandler O Item (World Q W)
  redis_handler =
      let r : Registration O (World Q W) =
        main_registration (redis_interface workqueue) lib.delete_key
          (redis_options lib dec gvk redises) lib.redis in
      r.handler

  -- A delete event on a Redis adds its key to the queue of the Redis controller. The round of a
  -- worker that gets this key, with a Redis that is gone or has a time of deletion and is not paused,
  -- drops the key and leaves the server as it is. It adds the key of the tenant of the label, if the
  -- label is there and not empty, to the queue of the Tenant controller if the server still has the
  -- Redis; once the Redis is gone, it leaves that queue as it is.
  pub deleted_redis-Settles :
      (clock : ℕ → ℕ) (obj : O) (name : String) (object : ObjectKey) (w v : World Q W) (q : Q)
      (t : Option String)
      → lib.delete_key obj ≡ some (key name)
      → lib.split name ≡ some object
      → workqueue.get (clock 0) v.redis_queue ≡ (q, got (key name))
      → IsGone dec (clients.redises.get object v.server) t
      → (handle redis_handler now w (deleted obj)
          ≡ record w { redis_queue = workqueue.add now w.redis_queue (key name) })
        × (process_item_from_queue (redis_interface workqueue) clock as_string redises v
            ≡ ok (
              record v {
                tenant_queue = told workqueue now v.tenant_queue t;
                redis_queue = workqueue.done (clock 3) (workqueue.forget q (key name)) (key name);
              },
              true,
            ))
  unfolding on_delete new_enqueue_handler process_item_from_queue handle_outcome
  deleted_redis-Settles clock obj name object w v q t dk s g gone =
      (rw dk refl, rw (g, redises-IsGone name object (record v { redis_queue = q }) t s gone) refl)
