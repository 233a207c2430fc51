-- ===== src/Startup.antt =====
-- main.go: the two controllers that `main` sets up on one API server. Their queues are those of
-- client-go, with states `Q`; `W` is the state of the server, and objects are in `O`.
pub mod Registered
pub mod Chained
pub mod Deleted
pub mod Leading
pub mod Handled
mod Tests
use Prim.Native.String.{String}
use k8s_controller_the_hard.Prelude.{
  ℕ, ◌*◌, Bool, Option, none, some, List, [], ◌∷◌, ◌++◌, Run, ok, blocked, panic,
}
use k8s_controller_the_hard.Prelude.Int.{ℤ, pos}
use k8s_controller_the_hard.Controller.Predicate.{
  ObjectMeta, GroupVersionKind, predicates, owner_predicate, resource_version_predicate,
}
use k8s_controller_the_hard.Controller.Worker.{RateLimitingInterface, Outcome, failed, succeeded}
use k8s_controller_the_hard.Controller.Build.{
  Item, key, WatchOption, Options, Built, built, refused, crashed, Registration, BasicType,
  new_basic_controller, enqueue,
}
use k8s_controller_the_hard.Reconcilers.Tenant.{
  ObjectKey, Finalizers, TenantClient, no_result, reconcile as reconcile_tenant,
}
use k8s_controller_the_hard.Reconcilers.Redis.{
  Redis, Error, RedisClient, Round, parse_redis_key_from_obj, reconcile as reconcile_redis_key,
}

-- What the controllers work on.
pub record World (Q W : Type 0) : Type 0 where
  pub tenant_queue : Q
  pub redis_queue : Q
  pub server : W

abbrev pub run_map : {A B : Type 0} → (A → B) → Run A → Run B
run_map f (ok a) = ok (f a)
run_map f (blocked a) = blocked (f a)
run_map f panic = panic

-- A queue as a part of the world.
abbrev pub queue_in :
    {K Q A : Type 0} → RateLimitingInterface K Q → (A → Q) → (A → Q → A) → RateLimitingInterface K A
queue_in iface get put = record {
  get = λ now a. let (q, g) = iface.get now (get a) in (put a q, g);
  done = λ now a item. put a (iface.done now (get a) item);
  add = λ now a item. put a (iface.add now (get a) item);
  add_after = λ now a item d. run_map (put a) (iface.add_after now (get a) item d);
  add_rate_limited = λ now a item. run_map (put a) (iface.add_rate_limited now (get a) item);
  forget = λ a item. put a (iface.forget (get a) item);
}

-- What `main` takes of the libraries: the objects `&demov1.Tenant{}`, `&demov1.Redis{}`,
-- `&appsv1.StatefulSet{}` and `&corev1.Service{}`, and functions on objects. `is_deleted_state` is the
-- assertion on `DeletedFinalStateUnknown`, `delete_key` is `DeletionHandlingMetaNamespaceKeyFunc`, and
-- `redis_gvk` what `GVKForObject` returns for a Redis.
pub record Libraries (O : Type 0) : Type 0 where
  pub tenant : O
  pub redis : O
  pub stateful_set : O
  pub service : O
  pub group_kind : O → Option String
  pub informs : O → Bool
  pub accessor : O → Option ObjectMeta
  pub is_deleted_state : O → Bool
  pub delete_key : O → Option Item
  pub redis_gvk : Option GroupVersionKind
  pub split : String → Option ObjectKey

-- The client of the API server that both reconcilers get, and `SetControllerReference`.
pub record Clients (F Ow W : Type 0) : Type 0 where
  pub finalizers : Finalizers F
  pub tenants : TenantClient F W
  pub redises : RedisClient Ow W
  pub own : Redis → Ow → Option Ow

-- How the setup ends: with the two controllers, by `os.Exit(1)` after a log line, or by a panic.
pub data SetUp (A : Type 0) : Type 0 where
  set_up : A → SetUp A
  exit_1 : String → SetUp A
  crash : SetUp A

-- `if err != nil { logger.Error(err, message); os.Exit(1) }` after a constructor, and what follows
-- it, with the registrations of both.
abbrev pub after_build :
    {R A B : Type 0} → String → List R × Built A → (A → List R × SetUp B) → List R × SetUp B
after_build message (log, built a) next = let (rest, end) = next a in (log ++ rest, end)
after_build message (log, refused e) next = (log, exit_1 message)
after_build message (log, crashed) next = (log, crash)

abbrev pub after_gvk :
    {R B : Type 0}
    → Option GroupVersionKind
    → (GroupVersionKind → List R × SetUp B)
    → List R × SetUp B
after_gvk none next = ([], exit_1 "parse Redis GVK")
after_gvk (some gvk) next = next gvk

-- The result of a round of Redis, which is always `controller.Result{}`.
abbrev pub outcome_of : Option Error → Outcome
outcome_of none = succeeded no_result
outcome_of (some e) = failed

-- `10 * time.Second`
abbrev pub reconcile_timeout : ℤ
reconcile_timeout = pos 10000000000

abbrev pub disable_resync : Option ℤ
disable_resync = some (pos 0)

-- The calls of `notifyTenantUpdate` in a round, the latest first.
abbrev pub notify_all : {A : Type 0} → (A → String → A) → A → List String → A
notify_all notify a [] = a
notify_all notify a (tenant ∷ tenants) = notify (notify_all notify a tenants) tenant

module _ {Q W : Type 0} (workqueue : RateLimitingInterface Item Q) where
  abbrev pub tenant_interface : RateLimitingInterface Item (World Q W)
  tenant_interface = queue_in workqueue (λ w. w.tenant_queue) (λ w q. record w { tenant_queue = q })

  abbrev pub redis_interface : RateLimitingInterface Item (World Q W)
  redis_interface = queue_in workqueue (λ w. w.redis_queue) (λ w q. record w { redis_queue = q })

module _ {F Ow Q W : Type 0} (dec : Discrete String) (split : String → Option ObjectKey)
    (clients : Clients F Ow W) where
  -- `NewTenantReconciler(k8client, …)`, its method `Reconcile`.
  unfoldable pub tenant_reconciler : String → World Q W → World Q W × Outcome
  tenant_reconciler name w =
      let (server, outcome) =
        reconcile_tenant clients.finalizers clients.tenants split name w.server in
      (record w { server = server }, outcome)

  -- `NewRedisReconciler(notifyTenantUpdate, k8client, …)`, its method `Reconcile`; the Boolean is the
  -- order of the two goroutines of a round.
  unfoldable pub redis_reconciler :
      (World Q W → String → World Q W) → Bool → String → World Q W → World Q W × Outcome
  redis_reconciler notify order name w =
      let round = reconcile_redis_key dec clients.redises clients.own split order name w.server in
      (
        notify_all notify (record w { server = round.server }) round.notified,
        outcome_of round.error,
      )

-- A string as the `interface{}` of the queue.
abbrev pub as_key : Option String → Option Item
as_key none = none
as_key (some name) = some (key name)

module _ {O : Type 0} (lib : Libraries O) (dec : Discrete String) where
  -- `reconcilers.ParseRedisKeyFromObj`, as a `GetKeyFunc`.
  abbrev pub redis_key_of : O → Option Item
  redis_key_of obj =
      as_key (parse_redis_key_from_obj dec (lib.is_deleted_state obj) (lib.accessor obj))

  -- A member of `WatchOptions`.
  abbrev pub watch_owned : GroupVersionKind → O → WatchOption O
  watch_owned gvk resource = record {
    resource = resource;
    predicate = some (
        predicates
          (owner_predicate lib.accessor gvk ∷ resource_version_predicate lib.accessor ∷ []));
    get_key_func = redis_key_of;
    resync_period = disable_resync;
  }

  abbrev pub tenant_options : {Q : Type 0} → (String → Q → Q × Outcome) → Options O Q
  tenant_options reconciler = record {
    name = "";
    resource = some lib.tenant;
    reconciler = some reconciler;
    predicate = some (resource_version_predicate lib.accessor);
    resync_period = disable_resync;
    watch_options = [];
  }

  abbrev pub redis_options :
      {Q : Type 0} → GroupVersionKind → (String → Q → Q × Outcome) → Options O Q
  redis_options gvk reconciler = record {
    name = "";
    resource = some lib.redis;
    reconciler = some reconciler;
    predicate = some (resource_version_predicate lib.accessor);
    resync_period = disable_resync;
    watch_options = watch_owned gvk lib.stateful_set ∷ watch_owned gvk lib.service ∷ [];
  }

pub record Controllers (A : Type 0) : Type 0 where
  pub tenants : BasicType A
  pub redises : BasicType A

module _ {F Ow O Q W : Type 0} (lib : Libraries O) (dec : Discrete String)
    (clients : Clients F Ow W) (workqueue : RateLimitingInterface Item Q) (gomaxprocs : ℕ)
    (order : Bool) (now : ℕ) where
  -- From the Redis kind on.
  abbrev pub setup_redis :
      BasicType (World Q W)
      → GroupVersionKind
      → List (Registration O (World Q W)) × SetUp (Controllers (World Q W))
  setup_redis tenant_controller gvk =
      after_build "failed to build Redis controller"
        (new_basic_controller lib.group_kind lib.informs lib.delete_key (redis_interface workqueue)
          (redis_options lib dec gvk (
            redis_reconciler dec lib.split clients (λ w t. enqueue tenant_controller.queue now w t)
              order))
          reconcile_timeout (pos (gomaxprocs * 10)))
        (λ redis_controller.
          ([], set_up (record { tenants = tenant_controller; redises = redis_controller })))

  -- The part of `main` under `setup controllers`; `now` is the time of the calls of `Enqueue`.
  unfoldable pub setup_controllers :
      List (Registration O (World Q W)) × SetUp (Controllers (World Q W))
  setup_controllers =
      after_build "failed to build Tenant controller"
        (new_basic_controller lib.group_kind lib.informs lib.delete_key (tenant_interface workqueue)
          (tenant_options lib dec (tenant_reconciler dec lib.split clients)) reconcile_timeout
          (pos (gomaxprocs * 10)))
        (λ tenant_controller. after_gvk lib.redis_gvk (setup_redis tenant_controller))
