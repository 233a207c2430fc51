-- ===== src/Reconcilers/Redis/Rounds.antt =====
-- pkg/kubernetes/reconcilers/redis.go: the error of a round of the Redis reconciler.
use Prim.Native.String.{String}
use k8s_controller_the_hard.Prelude.{
  ◌≡◌, refl, Bool, true, false, Option, none, some, if◌then◌else◌, arith,
}
use k8s_controller_the_hard.Reconcilers.Tenant.{is_deleted}
use k8s_controller_the_hard.Reconcilers.Redis.{
  Redis, Error, wrapped, RedisClient, wrap, error_of, first_error, give_up,
  create_or_update_stateful_set, create_or_update_service, update_children, status_changes,
  update_status, reconcile_redis,
}
use k8s_controller_the_hard.Reconcilers.Children.{mutate_service, mutate_stateful_set}

abbrev is_some : {A : Type 0} → Option A → Bool
is_some none = false
is_some (some _) = true

-- An error of `wg.Wait()` is wrapped, so that the assertion on it fails.
abbrev IsWrapped : Option Error → Type 0
IsWrapped none = Unit {0}
IsWrapped (some e) = (f : Error) × (e ≡ wrapped f)

wrap-IsWrapped : (e : Option Error) → IsWrapped (wrap e)
wrap-IsWrapped none = tt
wrap-IsWrapped (some e) = (e, refl)

first_error-IsWrapped :
    (e f : Option Error) → IsWrapped e → IsWrapped f → IsWrapped (first_error e f)
first_error-IsWrapped none f p q = q
first_error-IsWrapped (some e) f p q = p

give_up-IsWrapped : (e : Option Error) → IsWrapped e → give_up e ≡ e
unfolding give_up
give_up-IsWrapped none p = refl
give_up-IsWrapped (some e) (f, q) = rw q refl

module _ {Ow W : Type 0} (dec : Discrete String) (client : RedisClient Ow W)
    (own : Redis → Ow → Option Ow) where
  stateful_set-IsWrapped :
      (redis : Redis) (w : W) → IsWrapped (create_or_update_stateful_set dec client own redis w).2
  unfolding create_or_update_stateful_set
  stateful_set-IsWrapped redis w = wrap-IsWrapped (
      error_of
        (client.patch_stateful_set (record { namespace = redis.namespace; name = redis.name })
          (mutate_stateful_set dec (own redis) redis.name redis.image) w).1)

  service-IsWrapped :
      (redis : Redis) (w : W) → IsWrapped (create_or_update_service dec client own redis w).1
  unfolding create_or_update_service
  service-IsWrapped redis w = wrap-IsWrapped (
      error_of
        (client.patch_service (record { namespace = redis.namespace; name = redis.name })
          (mutate_service dec (own redis) redis.name) w).1)

  children-IsWrapped :
      (order : Bool) (redis : Redis) (w : W)
      → IsWrapped (update_children dec client own order redis w).2
  unfolding update_children
  children-IsWrapped true redis w =
      let sts = create_or_update_stateful_set dec client own redis w in
      let svc = create_or_update_service dec client own redis sts.0 in
      first_error-IsWrapped sts.2 svc.1 (stateful_set-IsWrapped redis w)
        (service-IsWrapped redis sts.0)
  children-IsWrapped false redis w =
      let svc = create_or_update_service dec client own redis w in
      let sts = create_or_update_stateful_set dec client own redis svc.0 in
      first_error-IsWrapped svc.1 sts.2 (service-IsWrapped redis w)
        (stateful_set-IsWrapped redis svc.0)

  pub live_round :
      (order : Bool) (redis : Redis) (w : W)
      → redis.pause ≡ false
      → is_deleted redis.deletion_timestamp ≡ false
      → let children = update_children dec client own order redis w in
        reconcile_redis dec client own order redis w
        ≡ update_status dec client own redis children.1 children.0 children.2
  unfolding reconcile_redis
  live_round order redis w p d = ground (
    arith,
    give_up-IsWrapped (update_children dec client own order redis w).2
        (children-IsWrapped order redis w),
  )

  -- The error of a round on a Redis that is not paused and not in deletion is that of its children
  -- if there is one, also the error that another controller owns a child, and else that of the update
  -- of the status, where the status changes.
  pub reconcile_redis-error :
      (order : Bool) (redis : Redis) (w : W) {after : W} {ready : Bool} {e : Option Error}
      → redis.pause ≡ false
      → is_deleted redis.deletion_timestamp ≡ false
      → update_children dec client own order redis w ≡ (after, ready, e)
      → (reconcile_redis dec client own order redis w).error
        ≡ first_error e (
            if status_changes redis.status ready
            then wrap (client.update_status (record redis { status = some ready }) after).1
            else none)
  unfolding update_status
  reconcile_redis-error order redis w {e} p d c =
      rw (live_round order redis w p d, c) (ground arith)
