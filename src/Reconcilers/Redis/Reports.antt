-- ===== src/Reconcilers/Redis/Reports.antt =====
-- pkg/kubernetes/reconcilers/redis.go: what a round of the Redis reconciler writes and notifies.
use Prim.Native.String.{String}
use text.Mathlib.Text.{◌==◌ as str_eq}
use text.Mathlib.TextEquality.{eq_iff}
use k8s_controller_the_hard.Prelude.{
  ◌≡◌, ◌≢◌, ◌⊎◌, inl, inr, refl, Bool, true, false, not, Option, none, some, List, [], ◌∷◌,
  if◌then◌else◌, arith, Bool-cases, ◌==◌,
}
use k8s_controller_the_hard.Prelude.GoMap
use k8s_controller_the_hard.Reconcilers.Tenant.{ObjectKey, found, is_deleted}
use k8s_controller_the_hard.Reconcilers.Redis.{
  Redis, Error, RedisClient, tenants, create_or_update_stateful_set, create_or_update_service,
  update_children, status_changes, update_status, reconcile, label_tenant, Patched, patched,
}
use k8s_controller_the_hard.Reconcilers.Children.{
  Service, StatefulSet, mutate_service, mutate_stateful_set,
}
use k8s_controller_the_hard.Reconcilers.Redis.Rounds.{live_round}

-- What the label of the tenant says: a tenant with a name that is not empty, or none.
abbrev pub HasTenant : Discrete String → Redis → Option String → Type 0
HasTenant dec redis none =
    (GoMap.get dec redis.labels label_tenant ≡ none)
    ⊎ (GoMap.get dec redis.labels label_tenant ≡ some "")
HasTenant dec redis (some tenant) =
    (GoMap.get dec redis.labels label_tenant ≡ some tenant) × (tenant ≢ "")

abbrev pub listed : Option String → List String
listed none = []
listed (some tenant) = tenant ∷ []

pub nonempty_str : (s : String) → s ≢ "" → str_eq s "" ≡ false
nonempty_str s n = elim (Bool-cases (str_eq s "")) [
  | inl e ↦ absurd (n ((eq_iff s "").0 e))
  | inr e ↦ e
]

pub tenants-HasTenant :
    (dec : Discrete String) (redis : Redis) (t : Option String)
    → HasTenant dec redis t
    → tenants dec redis ≡ listed t
unfolding tenants
tenants-HasTenant dec redis none (inl e) = rw (e, tenants) refl
tenants-HasTenant dec redis none (inr e) = rw (e, tenants) refl
tenants-HasTenant dec redis (some t) (e, n) = rw (e, tenants, nonempty_str t n) refl

-- Whether the status says this readiness.
abbrev pub says : Option Bool → Bool → Bool
says none ready = false
says (some true) ready = ready
says (some false) ready = not ready

changes-says :
    (status : Option Bool) (ready : Bool) → status_changes status ready ≡ not (says status ready)
unfolding status_changes
changes-says none ready = refl
changes-says (some true) true = refl
changes-says (some true) false = refl
changes-says (some false) true = refl
changes-says (some false) false = refl

module _ {Ow W : Type 0} (dec : Discrete String) (client : RedisClient Ow W)
    (own : Redis → Ow → Option Ow) (redis : Redis) where
  abbrev patch_sts : W → W × Patched (StatefulSet Ow)
  patch_sts =
      client.patch_stateful_set (record { namespace = redis.namespace; name = redis.name })
        (mutate_stateful_set dec (own redis) redis.name redis.image)

  abbrev patch_svc : W → W × Patched (Service Ow)
  patch_svc =
      client.patch_service (record { namespace = redis.namespace; name = redis.name })
        (mutate_service dec (own redis) redis.name)

  -- Both children are patched without an error, one after the other, the StatefulSet first or second:
  -- from `w` to `after`, with the StatefulSet that this leaves.
  abbrev pub Patches : Bool → W → W → StatefulSet Ow → Type 0
  Patches true w after sts =
      (v : W) × (svc : Service Ow) × (patch_sts w ≡ (v, patched sts))
      × (patch_svc v ≡ (after, patched svc))
  Patches false w after sts =
      (v : W) × (svc : Service Ow) × (patch_svc w ≡ (v, patched svc))
      × (patch_sts v ≡ (after, patched sts))

  Patches-children :
      (order : Bool) (w after : W) (sts : StatefulSet Ow)
      → Patches order w after sts
      → update_children dec client own order redis w
        ≡ (after, sts.ready_replicas == sts.status_replicas, none)
  unfolding update_children create_or_update_stateful_set create_or_update_service
  Patches-children true w after sts (v, svc, a, b) = rw (a, b) refl
  Patches-children false w after sts (v, svc, a, b) = rw (a, b) refl

  -- The update of the status with the readiness of the StatefulSet.
  abbrev pub write_ready : StatefulSet Ow → W → W × Option Error
  write_ready sts w =
      client.update_status
        (record redis { status = some (sts.ready_replicas == sts.status_replicas) }) w

  reports-says :
      (w : W) (sts : StatefulSet Ow) (t : Option String)
      → HasTenant dec redis t
      → (write_ready sts w).1 ≡ none
      → update_status dec client own redis (sts.ready_replicas == sts.status_replicas) w none ≡ (
          if says redis.status (sts.ready_replicas == sts.status_replicas)
          then record { server = w; error = none; notified = [] }
          else record { server = (write_ready sts w).0; error = none; notified = listed t })
  unfolding update_status
  reports-says w sts t h u = ground (
    arith,
    changes-says redis.status (sts.ready_replicas == sts.status_replicas),
    tenants-HasTenant dec redis t h,
    u,
  )

  -- A round on a Redis that is not paused and not in deletion, with both children and, if it is made,
  -- the update of the status patched without an error, returns no error. The Redis is ready exactly
  -- if the StatefulSet has as many ready replicas as replicas. Where the status says that already, the
  -- round leaves it and notifies no tenant; else, also where there is no status, it writes it and
  -- notifies the tenant of the label, if the label is there and not empty.
  pub reconcile-reports :
      (split : String → Option ObjectKey) (key : String) {object : ObjectKey} (order : Bool)
      (w after : W) (sts : StatefulSet Ow) (t : Option String)
      → split key ≡ some object
      → client.get object w ≡ found redis
      → redis.pause ≡ false
      → is_deleted redis.deletion_timestamp ≡ false
      → Patches order w after sts
      → HasTenant dec redis t
      → (write_ready sts after).1 ≡ none
      → reconcile dec client own split order key w ≡ (
          if says redis.status (sts.ready_replicas == sts.status_replicas)
          then record { server = after; error = none; notified = [] }
          else record { server = (write_ready sts after).0; error = none; notified = listed t })
  unfolding reconcile
  reconcile-reports split key order w after sts t s g p d c h u =
      rw (s, g, live_round dec client own order redis w p d, Patches-children order w after sts c)
        (reports-says after sts t h u)
