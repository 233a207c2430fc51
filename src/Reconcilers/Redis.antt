-- ===== src/Reconcilers/Redis.antt =====
-- pkg/kubernetes/reconcilers/redis.go: `Reconcile` and `ParseRedisKeyFromObj`. The API server is the
-- state `W` of the client. The two goroutines of the error group run one after the other, in either
-- order; notified tenants are listed newest first.
pub mod Rounds
pub mod Reports
pub mod Keys
use Prim.Native.String.{String, ◌++◌ as ◌+++◌}
use text.Mathlib.Text.{◌==◌ as str_eq}
use k8s_controller_the_hard.Prelude.{
  ℕ, Bool, true, false, not, ◌&&◌, ◌||◌, Option, none, some, List, [], ◌∷◌, if◌then◌else◌, ◌==◌,
}
use k8s_controller_the_hard.Prelude.GoMap
use k8s_controller_the_hard.Prelude.GoMap.{GoMap}
use k8s_controller_the_hard.Controller.Predicate.{ObjectMeta}
use k8s_controller_the_hard.Reconcilers.Tenant.{
  ObjectKey, Found, found, not_found, get_error, is_deleted,
}
use k8s_controller_the_hard.Reconcilers.Children.{
  Service, StatefulSet, mutate_service, mutate_stateful_set, label_redis,
}

-- `demov1.LabelTenant`
abbrev pub label_tenant : String
label_tenant = "demo.lichuan.guru/tenant"

-- The parts of a `Redis` that the reconciler reads or writes; `status` is a pointer to `Ready`.
pub record Redis : Type 0 where
  pub name : String
  pub namespace : String
  pub labels : GoMap String String
  pub deletion_timestamp : Option ℕ
  pub image : String
  pub pause : Bool
  pub status : Option Bool

-- Error values: that of `SetControllerReference`, others, and what `errors.Wrap` makes of one.
pub data Error : Type 0 where
  already_owned other_error : Error
  wrapped : Error → Error

-- `errors.Wrap`, which keeps a nil error.
abbrev pub wrap : Option Error → Option Error
wrap none = none
wrap (some e) = some (wrapped e)

-- The assertion `err.(*controllerutil.AlreadyOwnedError)`.
abbrev pub is_already_owned_error : Error → Bool
is_already_owned_error already_owned = true
is_already_owned_error other_error = false
is_already_owned_error (wrapped e) = false

-- What `CreateOrPatch` of controllerutil comes to: the object in the end, or an error.
pub data Patched (A : Type 0) : Type 0 where
  patched : A → Patched A
  patch_error : Error → Patched A

-- The calls of the client. A patch is given the function that changes the object, which returns
-- `none` for an error.
pub record RedisClient (Ow W : Type 0) : Type 0 where
  pub get : ObjectKey → W → Found Redis
  pub update_status : Redis → W → W × Option Error
  pub patch_stateful_set :
      ObjectKey → (StatefulSet Ow → Option (StatefulSet Ow)) → W → W × Patched (StatefulSet Ow)
  pub patch_service : ObjectKey → (Service Ow → Option (Service Ow)) → W → W × Patched (Service Ow)

-- What a round leaves: the server, the error it returns, and the tenants it notified. Its result is
-- `controller.Result{}`.
pub record Round (W : Type 0) : Type 0 where
  pub server : W
  pub error : Option Error
  pub notified : List String

abbrev pub error_of : {A : Type 0} → Patched A → Option Error
error_of (patched _) = none
error_of (patch_error e) = some e

-- The return values of `createOrUpdateStatefulSet`: `ready`.
abbrev pub ready_of : {Ow : Type 0} → Patched (StatefulSet Ow) → Bool
ready_of (patched sts) = sts.ready_replicas == sts.status_replicas
ready_of (patch_error e) = false

-- `wg.Wait()`: the error that came first.
abbrev pub first_error : Option Error → Option Error → Option Error
first_error none second = second
first_error (some e) second = some e

-- The branch on the error of `wg.Wait()`.
unfoldable pub give_up : Option Error → Option Error
give_up none = none
give_up (some e) = if is_already_owned_error e then none else some e

-- Whether the deferred function updates the status.
unfoldable pub status_changes : Option Bool → Bool → Bool
status_changes none ready = true
status_changes (some old) ready = if old then not ready else ready

module _ (dec : Discrete String) where
  -- The tenants notified: that of the label, if it is there and not empty.
  unfoldable pub tenants : Redis → List String
  tenants redis = elim (GoMap.get dec redis.labels label_tenant) [
    | none ↦ []
    | some tenant ↦ if not (str_eq tenant "") then tenant ∷ [] else []
  ]

  -- Past the access to the object.
  abbrev pub parse_labels : ObjectMeta → Option String
  parse_labels o = elim (GoMap.get dec o.labels label_redis) [
    | none ↦ none
    | some name ↦ if str_eq name "" then none else some (o.namespace +++ "/" +++ name)
  ]

  module _ {Ow W : Type 0} (client : RedisClient Ow W) (own : Redis → Ow → Option Ow) where
    -- `createOrUpdateStatefulSet`, with its error wrapped.
    unfoldable pub create_or_update_stateful_set : Redis → W → W × Bool × Option Error
    create_or_update_stateful_set src w =
        let (after, r) =
          client.patch_stateful_set (record { namespace = src.namespace; name = src.name })
            (mutate_stateful_set dec (own src) src.name src.image) w in
        (after, ready_of r, wrap (error_of r))

    unfoldable pub create_or_update_service : Redis → W → W × Option Error
    create_or_update_service src w =
        let (after, r) =
          client.patch_service (record { namespace = src.namespace; name = src.name })
            (mutate_service dec (own src) src.name) w in
        (after, wrap (error_of r))

    -- The two goroutines, the StatefulSet first or second: the server, `ready` and the error.
    unfoldable pub update_children : Bool → Redis → W → W × Bool × Option Error
    update_children true redis w =
        let (w1, ready, e1) = create_or_update_stateful_set redis w in
        let (w2, e2) = create_or_update_service redis w1 in (w2, ready, first_error e1 e2)
    update_children false redis w =
        let (w1, e1) = create_or_update_service redis w in
        let (w2, ready, e2) = create_or_update_stateful_set redis w1 in
        (w2, ready, first_error e1 e2)

    -- The deferred function, with the error of the return.
    unfoldable pub update_status : Redis → Bool → W → Option Error → Round W
    update_status redis ready w err =
        if status_changes redis.status ready
        then (let (after, status_err) =
              client.update_status (record redis { status = some ready }) w in
            record {
              server = after;
              error = first_error err (wrap status_err);
              notified = tenants redis;
            })
        else record { server = w; error = err; notified = [] }

    -- A Redis that is there.
    unfoldable pub reconcile_redis : Bool → Redis → W → Round W
    reconcile_redis order redis w =
        if redis.pause
        then record { server = w; error = none; notified = [] }
        else if is_deleted redis.deletion_timestamp
        then record { server = w; error = none; notified = tenants redis }
        else (let (after, ready, err) = update_children order redis w in
            update_status redis ready after (give_up err))

    abbrev pub with_redis : Bool → W → Found Redis → Round W
    with_redis order w (found redis) = reconcile_redis order redis w
    with_redis order w not_found = record { server = w; error = none; notified = [] }
    with_redis order w get_error = record {
      server = w;
      error = some (wrapped other_error);
      notified = [];
    }

    abbrev pub with_redis_key : Bool → W → Option ObjectKey → Round W
    with_redis_key order w none = record { server = w; error = none; notified = [] }
    with_redis_key order w (some object) = with_redis order w (client.get object w)

    -- `Reconcile`; `split` is `SplitMetaNamespaceKey`, and the Boolean the order of the goroutines.
    unfoldable pub reconcile : (String → Option ObjectKey) → Bool → String → W → Round W
    reconcile split order key w = with_redis_key order w (split key)

-- `ParseRedisKeyFromObj`: whether the object is a `DeletedFinalStateUnknown`, what `meta.Accessor`
-- finds, and the key, with `none` for an error.
unfoldable pub parse_redis_key_from_obj : Discrete String → Bool → Option ObjectMeta → Option String
parse_redis_key_from_obj dec is_deleted_state accessed =
    if is_deleted_state then none else elim accessed [ none ↦ none | some o ↦ parse_labels dec o ]
