-- ===== src/Reconcilers/Tenant/Converges.antt =====
-- pkg/kubernetes/reconcilers/tenant.go: what a round leaves behind, and which rounds write nothing.
use Prim.Native.String.{String}
use k8s_controller_the_hard.Prelude.{
  ℕ, ◌≡◌, refl, true, false, ◌&&◌, Option, some, if◌then◌else◌, ltb, ◌==◌, arith, ◌⊎◌, inl, inr,
  Bool-cases,
}
use k8s_controller_the_hard.Controller.Worker.{Result, succeeded}
use k8s_controller_the_hard.Reconcilers.Tenant.{
  ObjectKey, found, Finalizers, Tenant, TenantClient, no_result, in_three_seconds, is_deleted,
  set_finalizer, decide, finish, reconcile,
}

-- What controllerutil documents.
pub record IsFinalizers {F : Type 0} (fin : Finalizers F) : Type 0 where
  pub contains_add : (f : F) → fin.contains (fin.add f) ≡ true
  pub contains_remove : (f : F) → fin.contains (fin.remove f) ≡ false

module _ {F : Type 0} (fin : Finalizers F) where
  -- The tenant holds the finalizer exactly if it owns a Redis object, and counts these unless it is
  -- in deletion; its name and deletion stay.
  pub record IsSettled (owned : ℕ) (before after : Tenant F) : Type 0 where
    pub named : after.name ≡ before.name
    pub deletion : after.deletion_timestamp ≡ before.deletion_timestamp
    pub holds : fin.contains after.finalizers ≡ ltb 0 owned
    pub count :
        after.owned_redis_count
        ≡ (if is_deleted before.deletion_timestamp then before.owned_redis_count else owned)

  decide-IsSettled :
      (owned : ℕ) (tenant : Tenant F)
      → IsFinalizers fin
      → IsSettled owned tenant (decide fin owned tenant).tenant
  unfolding decide set_finalizer
  decide-IsSettled owned tenant laws = record {
    named = ground arith;
    deletion = ground arith;
    holds =
        ground (arith, laws.contains_add tenant.finalizers, laws.contains_remove tenant.finalizers);
    count = ground arith;
  }

  decide-unchanged :
      (owned : ℕ) (tenant : Tenant F)
      → (decide fin owned tenant).updated ≡ false
      → (decide fin owned tenant).tenant ≡ tenant
  unfolding decide set_finalizer
  decide-unchanged owned tenant n = ground arith

  abbrev pub release : Tenant F → Tenant F
  release tenant = record tenant { finalizers = fin.remove tenant.finalizers }

  -- A settled tenant is not updated, and is looked at again after three seconds exactly if it is in
  -- deletion and owns a Redis object.
  abbrev pub quiet_result : ℕ → Tenant F → Result
  quiet_result owned tenant =
      if is_deleted tenant.deletion_timestamp && ltb 0 owned then in_three_seconds else no_result

  decide-settled :
      (owned : ℕ) (before tenant : Tenant F)
      → IsSettled owned before tenant
      → (decide fin owned tenant).updated ≡ false
  unfolding decide set_finalizer
  decide-settled owned before tenant v = ground (arith, v.holds, v.count, v.deletion)

  decide-result :
      (owned : ℕ) (before tenant : Tenant F)
      → IsSettled owned before tenant
      → (decide fin owned tenant).result ≡ quiet_result owned tenant
  unfolding decide set_finalizer
  decide-result owned before tenant v = ground (arith, v.holds, v.count, v.deletion)

module _ {F W : Type 0} (fin : Finalizers F) (client : TenantClient F W) where
  -- A round that leaves `after` of the tenant: it writes it with one update, or it writes nothing
  -- where the tenant is so already.
  abbrev pub Leaves : Tenant F → Tenant F → W → W → Type 0
  Leaves before after w v = (v ≡ (client.update after w).0) ⊎ ((after ≡ before) × (v ≡ w))

  finish-Leaves :
      (w : W) (owned : ℕ) (before : Tenant F)
      → Leaves before
          (decide fin owned before).tenant
          w
          (finish fin client w (decide fin owned before)).0
  unfolding finish
  finish-Leaves w owned before = elim (Bool-cases (decide fin owned before).updated) [
    | inl written ↦ rw written (inl refl)
    | inr same ↦ rw same (inr (decide-unchanged fin owned before same, refl))
  ]

  module _ (split : String → Option ObjectKey) (key : String) {object : ObjectKey} {owned : ℕ}
      {before : Tenant F} where
    reconcile-written :
        (w : W)
        → split key ≡ some object
        → client.get object w ≡ found before
        → client.list_redis key w ≡ some owned
        → (client.update (decide fin owned before).tenant w).1 ≡ true
        → reconcile fin client split key w ≡ (
          (finish fin client w (decide fin owned before)).0,
          succeeded (decide fin owned before).result,
        )
    unfolding reconcile finish
    reconcile-written w s g l u = rw (s, g, l) (ground arith)

    settled_quiet :
        (w : W) (settled : Tenant F)
        → split key ≡ some object
        → IsSettled fin owned before settled
        → client.get object w ≡ found settled
        → client.list_redis key w ≡ some owned
        → reconcile fin client split key w ≡ (w, succeeded (quiet_result fin owned settled))
    unfolding reconcile finish
    settled_quiet w settled s v g l =
        rw
          (
            s,
            g,
            l,
            decide-settled fin owned before settled v,
            decide-result fin owned before settled v,
          )
          refl

    -- A round that reads a tenant and the number of its Redis objects, and whose update, if it makes
    -- one, succeeds, returns no error. It leaves a settled tenant: with the name and the deletion that
    -- it had, with the finalizer exactly if it owns a Redis object, and with the count of these unless
    -- it is in deletion; it writes this with one update, or nothing where the tenant is so already. A
    -- round in any other state that reads a settled tenant and the same number writes nothing and
    -- returns no error, and asks for another in three seconds exactly if the tenant is in deletion
    -- and owns a Redis object. Nothing is assumed of when a write is read.
    pub reconcile-IsSettled :
        (w later : W) (settled : Tenant F)
        → IsFinalizers fin
        → split key ≡ some object
        → client.get object w ≡ found before
        → client.list_redis key w ≡ some owned
        → (client.update (decide fin owned before).tenant w).1 ≡ true
        → IsSettled fin owned before settled
        → client.get object later ≡ found settled
        → client.list_redis key later ≡ some owned
        → ((v : W) × (result : Result) × (after : Tenant F) × (reconcile fin client split key w
              ≡ (v, succeeded result))
            × IsSettled fin owned before after
            × Leaves before after w v)
          × (reconcile fin client split key later
              ≡ (later, succeeded (quiet_result fin owned settled)))
    reconcile-IsSettled w later settled laws s g l u q gl ll = (
      (
        (finish fin client w (decide fin owned before)).0,
        (decide fin owned before).result,
        (decide fin owned before).tenant,
        reconcile-written w s g l u,
        decide-IsSettled fin owned before laws,
        finish-Leaves w owned before,
      ),
      settled_quiet later settled s q gl ll,
    )

    -- A tenant in deletion that holds the finalizer: while it owns a Redis object, a round writes
    -- nothing and asks for another in three seconds; once it owns none, the round writes the tenant
    -- without the finalizer and with its old count.
    pub reconcile-deleting :
        (w : W)
        → split key ≡ some object
        → client.get object w ≡ found before
        → client.list_redis key w ≡ some owned
        → is_deleted before.deletion_timestamp ≡ true
        → fin.contains before.finalizers ≡ true
        → reconcile fin client split key w ≡ (
            if owned == 0
            then finish fin client w
                (record { tenant = release fin before; updated = true; result = in_three_seconds })
            else (w, succeeded in_three_seconds))
    unfolding reconcile finish decide set_finalizer
    reconcile-deleting w s g l d c = rw (s, g, l) (ground arith)
