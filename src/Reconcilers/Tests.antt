-- ===== src/Reconcilers/Tests.antt =====
-- pkg/kubernetes/reconcilers: the theorems at concrete inputs.
use Prim.Native.String.{String}
use text.Mathlib.TextEquality.{eq_iff}
use k8s_controller_the_hard.Prelude.{
  false≢true, ℕ, ◌≡◌, refl, ap, inl, Bool, true, false, Option, none, some, [], ◌∷◌,
  String-discrete,
}
use k8s_controller_the_hard.Prelude.GoMap
use k8s_controller_the_hard.Controller.Predicate.{ObjectMeta}
use k8s_controller_the_hard.Controller.Worker.{Result, succeeded}
use k8s_controller_the_hard.Reconcilers.Tenant.{
  ObjectKey, found, Finalizers, Tenant, TenantClient, reconcile, in_three_seconds, finish,
}
use k8s_controller_the_hard.Reconcilers.Tenant.Converges.{
  IsFinalizers, IsSettled, Leaves, quiet_result, reconcile-IsSettled, reconcile-deleting,
}
use k8s_controller_the_hard.Reconcilers.Children.{
  Service, StatefulSet, ServicePort, by_number, desired_port, mutate_service, mutate_stateful_set,
}
use k8s_controller_the_hard.Reconcilers.Children.Ports.{
  other_ports, first_redis_port, mutate_service-ports, mutate_settles,
}
use k8s_controller_the_hard.Reconcilers.Redis.{
  Redis, RedisClient, Patched, patched, patch_error, already_owned, update_children,
  create_or_update_stateful_set, create_or_update_service, status_changes, reconcile_redis,
  reconcile as reconcile_round,
}
use k8s_controller_the_hard.Reconcilers.Redis.Rounds.{reconcile_redis-error}
use k8s_controller_the_hard.Reconcilers.Redis.Reports.{reconcile-reports}
use k8s_controller_the_hard.Reconcilers.Redis.Keys.{IsPatcher, parsed, parse_key-children}

-- A list of finalizers that is empty or holds that of the reconciler, and a server with one tenant
-- and a number of Redis objects.
abbrev one_finalizer : Finalizers Bool
one_finalizer = record { contains = λ f. f; add = λ _. true; remove = λ _. false }

one_finalizer-IsFinalizers : IsFinalizers one_finalizer
one_finalizer-IsFinalizers = record { contains_add = λ _. refl; contains_remove = λ _. refl }

abbrev Server : Type 0
Server = Tenant Bool × ℕ

abbrev serve : TenantClient Bool Server
serve = record {
  get = λ _ w. found w.0;
  list_redis = λ _ w. some w.1;
  update = λ t w. ((t, w.1), true);
}

abbrev split : String → Option ObjectKey
split key = some (record { namespace = ""; name = key })

abbrev acme : Option ℕ → Tenant Bool
acme deletion = record {
  name = "acme";
  finalizers = true;
  deletion_timestamp = deletion;
  owned_redis_count = 1;
}

-- The tenant with the number that the server has.
abbrev counted_acme : Tenant Bool
counted_acme = record (acme none) { owned_redis_count = 2 }

counted_acme-IsSettled : IsSettled one_finalizer 2 (acme none) counted_acme
counted_acme-IsSettled = record { named = refl; deletion = refl; holds = refl; count = refl }

reconcile-IsSettled_example :
    ((v : Server) × (result : Result) × (after : Tenant Bool) × (reconcile one_finalizer serve split
          "acme"
          (acme none, 2)
        ≡ (v, succeeded result))
      × IsSettled one_finalizer 2 (acme none) after
      × Leaves one_finalizer serve (acme none) after (acme none, 2) v)
    × (reconcile one_finalizer serve split "acme" (counted_acme, 2)
        ≡ ((counted_acme, 2), succeeded (quiet_result one_finalizer 2 counted_acme)))
reconcile-IsSettled_example =
    reconcile-IsSettled one_finalizer serve split "acme" (acme none, 2) (counted_acme, 2)
      counted_acme one_finalizer-IsFinalizers refl refl refl refl counted_acme-IsSettled refl refl

reconcile-deleting_example :
    reconcile one_finalizer serve split "acme" (acme (some 5), 0)
    ≡ ((record (acme (some 5)) { finalizers = false }, 0), succeeded in_three_seconds)
unfolding finish
reconcile-deleting_example =
    reconcile-deleting one_finalizer serve split "acme" (acme (some 5), 0) refl refl refl refl refl

-- A server with a Redis and its children, which belong to no one.
abbrev Cluster : Type 0
Cluster = Redis × StatefulSet (Unit {0}) × Service (Unit {0})

abbrev own : Unit {0} → Option (Unit {0})
own _ = some tt

abbrev after_patch : {A : Type 0} → A → Option A → A × Patched A
after_patch old none = (old, patch_error already_owned)
after_patch old (some new) = (new, patched new)

abbrev cluster : RedisClient (Unit {0}) Cluster
cluster = record {
  get = λ _ w. found w.0;
  update_status = λ redis w. ((redis, w.1, w.2), none);
  patch_stateful_set =
      λ _ mutate w. let (sts, r) = after_patch w.1 (mutate w.1) in ((w.0, sts, w.2), r);
  patch_service = λ _ mutate w. let (svc, r) = after_patch w.2 (mutate w.2) in ((w.0, w.1, svc), r);
}

abbrev cache : Redis
cache = record {
  name = "cache";
  namespace = "ns";
  labels = [];
  deletion_timestamp = none;
  image = "redis:6";
  pause = false;
  status = none;
}

abbrev new_set : StatefulSet (Unit {0})
new_set = record {
  namespace = "ns";
  name = "cache";
  labels = [];
  owners = tt;
  replicas = none;
  selector = none;
  template = record { labels = []; containers = [] };
  service_name = "";
  ready_replicas = 0;
  status_replicas = 0;
}

abbrev http_port : ServicePort
http_port = record { name = "http"; protocol = "TCP"; port = 80; target_port = by_number 80 }

abbrev old_service : Service (Unit {0})
old_service = record {
  namespace = "ns";
  name = "cache";
  labels = [];
  owners = tt;
  ports = http_port ∷ [];
  selector = [];
  service_type = "";
}

mutate_service-ports_example :
    (r : Service (Unit {0})) × (mutate_service String-discrete own "cache" old_service ≡ some r)
    × (other_ports r.ports ≡ other_ports (http_port ∷ []))
    × (first_redis_port r.ports ≡ some desired_port)
mutate_service-ports_example = mutate_service-ports String-discrete own "cache" old_service refl

mutate_settles_example :
    ((r : Service (Unit {0})) × (mutate_service String-discrete own "cache" old_service ≡ some r)
      × (mutate_service String-discrete own "cache" r ≡ some r))
    × ((r : StatefulSet (Unit {0})) × (mutate_stateful_set String-discrete own "cache" "redis:6"
            new_set
          ≡ some r)
        × (mutate_stateful_set String-discrete own "cache" "redis:6" r ≡ some r))
mutate_settles_example =
    mutate_settles String-discrete own "cache" "redis:6" old_service new_set refl refl refl refl

abbrev meta : ObjectMeta
meta = record {
  name = "cache";
  namespace = "ns";
  resource_version = "1";
  generation = 1;
  labels = [];
  annotations = [];
  owner_references = [];
}

-- A server with one Service and one StatefulSet, which it renames to the key of a patch.
abbrev Children : Type 0
Children = StatefulSet (Unit {0}) × Service (Unit {0})

abbrev patcher : RedisClient (Unit {0}) Children
patcher = record {
  get = λ _ w. found cache;
  update_status = λ redis w. (w, none);
  patch_stateful_set = λ k mutate w.
      let (sts, r) =
        after_patch w.0 (mutate (record new_set { namespace = k.namespace; name = k.name })) in
      ((sts, w.1), r);
  patch_service = λ k mutate w.
      let (svc, r) =
        after_patch w.1 (mutate (record old_service { namespace = k.namespace; name = k.name })) in
      ((w.0, svc), r);
}

after_patch-some :
    {A : Type 0} (old r : A) (o : Option A)
    → (after_patch old o).1 ≡ patched r
    → (o ≡ some r) × ((after_patch old o).0 ≡ r)
after_patch-some old r none e = cc
after_patch-some old r (some new) e = let s : new ≡ r = cc in (ap some s, s)

patcher-IsPatcher : IsPatcher patcher (λ w _. some w.1) (λ w _. some w.0)
patcher-IsPatcher = record {
  service = λ k f w r e.
      let old = record old_service { namespace = k.namespace; name = k.name } in
      let (m, s) = after_patch-some w.1 r (f old) e in
      (old, r, refl, refl, m, ap some s, refl, refl);
  stateful_set = λ k f w r e.
      let old = record new_set { namespace = k.namespace; name = k.name } in
      let (m, s) = after_patch-some w.0 r (f old) e in
      (old, r, refl, refl, m, ap some s, refl, refl);
}

abbrev owned_by : Redis → Unit {0} → Option (Unit {0})
owned_by redis _ = some tt

abbrev children : Children
children = (new_set, old_service)

parse_key-children_example :
    ((r : Service (Unit {0})) × (some
          (create_or_update_service String-discrete patcher owned_by cache children).0.1
        ≡ some r)
      × (parsed String-discrete meta r.labels r.namespace ≡ some "ns/cache"))
    × ((r : StatefulSet (Unit {0})) × (some
            (create_or_update_stateful_set String-discrete patcher owned_by cache children).0.0
          ≡ some r)
        × (parsed String-discrete meta r.labels r.namespace ≡ some "ns/cache"))
unfolding create_or_update_service create_or_update_stateful_set mutate_service mutate_stateful_set
parse_key-children_example =
    parse_key-children String-discrete patcher (λ w _. some w.1) (λ w _. some w.0) owned_by cache
      children children meta patcher-IsPatcher (λ e. false≢true ((eq_iff "cache" "").1 e)) refl refl

abbrev start : Cluster
start = (cache, new_set, old_service)

abbrev ends : Cluster
ends = (update_children String-discrete cluster (λ _. own) true cache start).0

program : Unit {0}
unfolding update_children create_or_update_stateful_set create_or_update_service mutate_service
    mutate_stateful_set status_changes
program = tt

reconcile_redis-error_example :
    (reconcile_redis String-discrete cluster (λ _. own) true cache start).error ≡ none
unfolding program
reconcile_redis-error_example =
    reconcile_redis-error String-discrete cluster (λ _. own) true cache start refl refl refl

-- The StatefulSet has no replica, and the Redis is ready: there was no status, and it is written.
reconcile-reports_example :
    reconcile_round String-discrete cluster (λ _. own) split true "cache" start ≡ record {
      server = (record cache { status = some true }, ends.1, ends.2);
      error = none;
      notified = [];
    }
unfolding program GoMap.get
reconcile-reports_example =
    reconcile-reports String-discrete cluster (λ _. own) cache split "cache" true start ends ends.1
      none refl refl refl refl ((cache, ends.1, start.2), ends.2, refl, refl) (inl refl) refl
