-- ===== src/Reconcilers/Tenant.antt =====
-- pkg/kubernetes/reconcilers/tenant.go. The state `W` of the client is that of the
-- API server, and of the cache that `Get` and `List` read from; `F` stands for
-- the list of finalizers. Times and durations are in nanoseconds, and 0 is the zero time.
pub mod Converges
use Prim.Native.String.{String}
use k8s_controller_the_hard.Prelude.{
  ℕ, Bool, true, false, not, ◌&&◌, ◌||◌, Option, none, some, if◌then◌else◌, ltb, ◌==◌,
}
use k8s_controller_the_hard.Prelude.Int.{ℤ, pos}
use k8s_controller_the_hard.Controller.Worker.{Result, Outcome, failed, succeeded}

-- `runtimeclient.ObjectKey`
pub record ObjectKey : Type 0 where
  pub namespace : String
  pub name : String

-- What a `Get` of the client comes to.
pub data Found (A : Type 0) : Type 0 where
  found : A → Found A
  not_found get_error : Found A

-- `ContainsFinalizer`, `AddFinalizer` and `RemoveFinalizer` of controllerutil, for
-- `FinalizerOwnedResource`.
pub record Finalizers (F : Type 0) : Type 0 where
  pub contains : F → Bool
  pub add : F → F
  pub remove : F → F

-- The part of a `Tenant` that the reconciler reads or writes.
pub record Tenant (F : Type 0) : Type 0 where
  pub name : String
  pub finalizers : F
  pub deletion_timestamp : Option ℕ
  pub owned_redis_count : ℕ

-- The calls of the client. `list_redis` is the number of items of the list by the label of the
-- tenant, with `none` for an error; `update` returns true if it returns no error.
pub record TenantClient (F W : Type 0) : Type 0 where
  pub get : ObjectKey → W → Found (Tenant F)
  pub list_redis : String → W → Option ℕ
  pub update : Tenant F → W → W × Bool

-- `controller.Result{}`
abbrev pub no_result : Result
no_result = record { requeue = false; requeue_after = pos 0 }

-- `controller.Result{RequeueAfter: 3 * time.Second}`
abbrev pub in_three_seconds : Result
in_three_seconds = record { requeue = false; requeue_after = pos 3000000000 }

-- `DeletionTimestamp != nil && !DeletionTimestamp.IsZero()`
abbrev pub is_deleted : Option ℕ → Bool
is_deleted none = false
is_deleted (some t) = not (t == 0)

-- What a round decides: the tenant, `updated`, and the result.
pub record Decision (F : Type 0) : Type 0 where
  pub tenant : Tenant F
  pub updated : Bool
  pub result : Result

module _ {F : Type 0} (fin : Finalizers F) where
  -- The two branches on the finalizer.
  unfoldable pub set_finalizer : ℕ → Tenant F → Tenant F × Bool
  set_finalizer owned tenant =
      let contains_finalizer = fin.contains tenant.finalizers in
      if ltb 0 owned && not contains_finalizer
      then (record tenant { finalizers = fin.add tenant.finalizers }, true)
      else if owned == 0 && contains_finalizer
      then (record tenant { finalizers = fin.remove tenant.finalizers }, true)
      else (tenant, false)

  -- From the number of Redis objects to the return.
  unfoldable pub decide : ℕ → Tenant F → Decision F
  decide owned tenant =
      let contains_finalizer = fin.contains tenant.finalizers in
      let (marked, updated) = set_finalizer owned tenant in
      if is_deleted marked.deletion_timestamp
      then record {
        tenant = marked;
        updated = updated;
        result = if contains_finalizer || ltb 0 owned then in_three_seconds else no_result;
      }
      else if not (owned == marked.owned_redis_count)
      then record {
        tenant = record marked { owned_redis_count = owned };
        updated = true;
        result = no_result;
      }
      else record { tenant = marked; updated = updated; result = no_result }

  module _ {W : Type 0} (client : TenantClient F W) where
    -- The deferred update, and the return.
    unfoldable pub finish : W → Decision F → W × Outcome
    finish w d =
        if d.updated
        then (let (after, written) = client.update d.tenant w in
            (after, if written then succeeded d.result else failed))
        else (w, succeeded d.result)

    -- From the list on.
    abbrev pub with_list : W → Tenant F → Option ℕ → W × Outcome
    with_list w tenant none = (w, failed)
    with_list w tenant (some owned) = finish w (decide owned tenant)

    -- From the return of `Get` on.
    abbrev pub with_tenant : String → W → Found (Tenant F) → W × Outcome
    with_tenant key w (found tenant) = with_list w tenant (client.list_redis key w)
    with_tenant key w not_found = (w, succeeded no_result)
    with_tenant key w get_error = (w, failed)

    -- From the parsed key on.
    abbrev pub with_key : String → W → Option ObjectKey → W × Outcome
    with_key key w none = (w, succeeded no_result)
    with_key key w (some object) = with_tenant key w (client.get object w)

    -- `Reconcile`; `split` is `SplitMetaNamespaceKey`.
    unfoldable pub reconcile : (String → Option ObjectKey) → String → W → W × Outcome
    reconcile split key w = with_key key w (split key)
