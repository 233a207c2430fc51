-- ===== src/Startup/Tests.antt =====
-- main.go: the theorems at concrete inputs. Objects are numbers, the kinds 1 (Tenant), 2 (Redis),
-- 3 (StatefulSet) and 4 (Service) among them; a queue is the list of its keys.
use text.Mathlib.TextEquality.{eq_iff}
use k8s_controller_the_hard.Prelude.GoMap
use k8s_controller_the_hard.Prelude.{
  arith, false≢true, ℕ, ◌≡◌, ◌⊎◌, refl, Bool, true, false, none, some, List, [], ◌∷◌, ok,
  if◌then◌else◌, ◌==◌, String-discrete,
}
use k8s_controller_the_hard.Workqueue.Queue.{got, wait}
use k8s_controller_the_hard.Controller.Predicate.{ObjectMeta, GroupVersionKind}
use k8s_controller_the_hard.Controller.Predicate.Laws.{updated, deleted, Watched}
use k8s_controller_the_hard.Controller.Worker.{RateLimitingInterface, process_item_from_queue}
use k8s_controller_the_hard.Controller.Handler.Kept.{handle}
use k8s_controller_the_hard.Controller.Build.{Item, Registration, key, as_string}
use k8s_controller_the_hard.Reconcilers.Tenant.{Found, found, not_found}
use k8s_controller_the_hard.Reconcilers.Redis.{Redis, patch_error, other_error, label_tenant}
use k8s_controller_the_hard.Startup.{
  World, Libraries, Clients, Controllers, set_up, redis_interface, setup_controllers,
}
use k8s_controller_the_hard.Startup.Handled.{Concerns, Handles, setup-Handles}
use k8s_controller_the_hard.Startup.Chained.{
  child_event-cases, child_registration, request_redis, parent_of,
}
use k8s_controller_the_hard.Startup.Deleted.{redises, redis_handler, deleted_redis-Settles}

abbrev queue : RateLimitingInterface Item (List Item)
queue = record {
  get = λ _ q. elim q [ [] ↦ ([], wait) | item ∷ rest ↦ (rest, got item) ];
  done = λ _ q item. q;
  add = λ _ q item. item ∷ q;
  add_after = λ _ q item d. ok (item ∷ q);
  add_rate_limited = λ _ q item. ok (item ∷ q);
  forget = λ q item. q;
}

abbrev redis_kind : GroupVersionKind
redis_kind = record { group_version = "demo/v1"; kind = "Redis" }

-- Object 5 is a StatefulSet without an owner.
abbrev meta_of : ℕ → ObjectMeta
meta_of n = record {
  name = "cache";
  namespace = "ns";
  resource_version = if n == 3 then "1" else "2";
  generation = 1;
  labels = ("demo.lichuan.guru/redis", "cache") ∷ [];
  annotations = [];
  owner_references =
      if n == 5 then [] else record { api_version = "demo/v1"; owner_kind = "Redis" } ∷ [];
}

abbrev lib : Libraries ℕ
lib = record {
  tenant = 1;
  redis = 2;
  stateful_set = 3;
  service = 4;
  group_kind = λ _. some "kind";
  informs = λ _. true;
  accessor = λ n. some (meta_of n);
  is_deleted_state = λ _. false;
  delete_key = λ _. some (key "ns/cache");
  redis_gvk = some redis_kind;
  split = λ name. some (record { namespace = "ns"; name = name });
}

-- A server with no Tenants that answers each `Get` of a Redis with its state.
abbrev clients : Clients Bool (Unit {0}) (Found Redis)
clients = record {
  finalizers = record { contains = λ f. f; add = λ _. true; remove = λ _. false };
  tenants = record { get = λ _ w. not_found; list_redis = λ _ w. none; update = λ t w. (w, false) };
  redises = record {
    get = λ _ w. w;
    update_status = λ redis w. (found redis, none);
    patch_stateful_set = λ _ mutate w. (w, patch_error other_error);
    patch_service = λ _ mutate w. (w, patch_error other_error);
  };
  own = λ _ o. some o;
}

-- A Redis of the tenant `acme` with a time of deletion.
abbrev deleting : Redis
deleting = record {
  name = "cache";
  namespace = "ns";
  labels = ("demo.lichuan.guru/tenant", "acme") ∷ [];
  deletion_timestamp = some 7;
  image = "redis:6";
  pause = false;
  status = none;
}

abbrev world : World (List Item) (Found Redis)
world = record { tenant_queue = []; redis_queue = key "ns/cache" ∷ []; server = found deleting }

setup-Handles_example :
    (t r s v : Registration ℕ (World (List Item) (Found Redis))) × (controllers : Controllers
      (World (List Item) (Found Redis)))
    × (setup_controllers lib String-discrete clients queue 4 true 1
        ≡ (t ∷ r ∷ s ∷ v ∷ [], set_up controllers))
    × Handles 1 t 1
        (Concerns lib.accessor (updated 3 5))
        world
        (record world { tenant_queue = key "ns/cache" ∷ [] })
        (updated 3 5)
    × Handles 1 r 2
        (Concerns lib.accessor (updated 3 5))
        world
        (record world { redis_queue = key "ns/cache" ∷ key "ns/cache" ∷ [] })
        (updated 3 5)
    × Handles 1 s 3
        (Watched lib.accessor redis_kind (updated 3 5))
        world
        (request_redis queue 1 world (parent_of lib String-discrete 5))
        (updated 3 5)
    × Handles 1 v 4
        (Watched lib.accessor redis_kind (updated 3 5))
        world
        (request_redis queue 1 world (parent_of lib String-discrete 5))
        (updated 3 5)
setup-Handles_example =
    setup-Handles lib String-discrete clients queue 4 true 1 redis_kind world (updated 3 5)
      (record {
        tenant = ("kind", refl, refl);
        redis = ("kind", refl, refl);
        stateful_set = ("kind", refl, refl);
        service = ("kind", refl, refl);
      })
      refl

child_event-cases_example :
    (Watched lib.accessor redis_kind (updated 3 5)
      × (handle
            (child_registration lib String-discrete queue redis_kind 1 3).handler
            1
            world
            (updated 3 5)
          ≡ request_redis queue 1 world (parent_of lib String-discrete 5)))
    ⊎ ((¬ Watched lib.accessor redis_kind (updated 3 5))
        × (handle
              (child_registration lib String-discrete queue redis_kind 1 3).handler
              1
              world
              (updated 3 5)
            ≡ world))
child_event-cases_example =
    child_event-cases lib String-discrete queue redis_kind 1 3 world (updated 3 5)

deleting-label : GoMap.get String-discrete deleting.labels label_tenant ≡ some "acme"
unfolding GoMap.get
deleting-label = ground arith

deleted_redis-Settles_example :
    (handle
        (redis_handler lib String-discrete clients queue 4 true 1 redis_kind)
        1
        world
        (deleted 2)
      ≡ record world { redis_queue = key "ns/cache" ∷ key "ns/cache" ∷ [] })
    × (process_item_from_queue
          (redis_interface queue)
          (λ n. n)
          as_string
          (redises lib String-discrete clients queue 4 true 1 redis_kind)
          world
        ≡ ok (record world { tenant_queue = key "acme" ∷ []; redis_queue = [] }, true))
deleted_redis-Settles_example =
    deleted_redis-Settles lib String-discrete clients queue 4 true 1 redis_kind (λ n. n) 2
      "ns/cache" (record { namespace = "ns"; name = "ns/cache" }) world world [] (some "acme") refl
      refl refl (refl, refl, (deleting-label, λ e. false≢true ((eq_iff "acme" "").1 e)))
