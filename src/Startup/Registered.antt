-- ===== src/Startup/Registered.antt =====
-- main.go: what the setup of the controllers registers and returns.
use Prim.Native.String.{String}
use k8s_controller_the_hard.Prelude.{ℕ, ◌*◌, ◌≡◌, refl, ◌∙◌, Bool, some, List, [], ◌∷◌, ◌++◌}
use k8s_controller_the_hard.Prelude.Int.{pos}
use k8s_controller_the_hard.Controller.Predicate.{GroupVersionKind}
use k8s_controller_the_hard.Controller.Worker.{RateLimitingInterface, Outcome}
use k8s_controller_the_hard.Controller.Handler.{get_name}
use k8s_controller_the_hard.Controller.Build.{
  Item, Built, built, Registration, BasicType, main_registration, watch_registration, enqueue,
}
use k8s_controller_the_hard.Controller.Build.Registers.{Usable, new_basic_controller-Registers}
use k8s_controller_the_hard.Startup.{
  World, Libraries, Clients, SetUp, set_up, after_build, tenant_interface, redis_interface,
  tenant_reconciler, redis_reconciler, watch_owned, tenant_options, redis_options,
  reconcile_timeout, disable_resync, setup_redis, setup_controllers,
}

after_build-built :
    {R A B : Type 0} (message : String) {r : List R × Built A} {log : List R} {a : A}
    (next : A → List R × SetUp B)
    → r ≡ (log, built a)
    → after_build message r next ≡ (log ++ (next a).0, (next a).1)
after_build-built message next e = rw e refl

-- The kinds of the four resources are known, and each has an informer.
pub record AllUsable {O : Type 0} (lib : Libraries O) : Type 0 where
  pub tenant : Usable lib.group_kind lib.informs lib.tenant
  pub redis : Usable lib.group_kind lib.informs lib.redis
  pub stateful_set : Usable lib.group_kind lib.informs lib.stateful_set
  pub service : Usable lib.group_kind lib.informs lib.service

module _ {Q W : Type 0} (workqueue : RateLimitingInterface Item Q) (now : ℕ) where
  -- `tenantController.Enqueue`
  abbrev pub notify_tenant : World Q W → String → World Q W
  notify_tenant w tenant = enqueue (tenant_interface workqueue) now w tenant

module _ {F Ow O Q W : Type 0} (lib : Libraries O) (dec : Discrete String)
    (clients : Clients F Ow W) (workqueue : RateLimitingInterface Item Q) (gomaxprocs : ℕ)
    (order : Bool) (now : ℕ) where
  -- A controller of `main` on the queue.
  abbrev pub controller_on :
      RateLimitingInterface Item (World Q W)
      → (String → World Q W → World Q W × Outcome)
      → O
      → BasicType (World Q W)
  controller_on queue reconciler resource = record {
    reconciler = reconciler;
    queue = queue;
    worker = record { reconcile_timeout = reconcile_timeout; concurrency = pos (gomaxprocs * 10) };
    logger_name = get_name "" (lib.group_kind resource);
  }

  abbrev pub tenants_controller : BasicType (World Q W)
  tenants_controller =
      controller_on (tenant_interface workqueue) (tenant_reconciler dec lib.split clients)
        lib.tenant

  abbrev pub redises_controller : BasicType (World Q W)
  redises_controller =
      controller_on (redis_interface workqueue)
        (redis_reconciler dec lib.split clients (notify_tenant workqueue now) order) lib.redis

  -- The handlers of the Redis objects and of the two kinds of children.
  abbrev pub redis_registrations : GroupVersionKind → List (Registration O (World Q W))
  redis_registrations gvk =
      main_registration (redis_interface workqueue) lib.delete_key
        (redis_options lib dec gvk redises_controller.reconciler) lib.redis
      ∷ watch_registration (redis_interface workqueue) (watch_owned lib dec gvk lib.stateful_set)
          disable_resync
      ∷ watch_registration (redis_interface workqueue) (watch_owned lib dec gvk lib.service)
          disable_resync
      ∷ []

  -- And before them that of the Tenants.
  abbrev pub registrations : GroupVersionKind → List (Registration O (World Q W))
  registrations gvk =
      main_registration (tenant_interface workqueue) lib.delete_key
        (tenant_options lib dec tenants_controller.reconciler) lib.tenant
      ∷ redis_registrations gvk

  setup_redis-Registers :
      (gvk : GroupVersionKind)
      → AllUsable lib
      → setup_redis lib dec clients workqueue gomaxprocs order now tenants_controller gvk ≡ (
        redis_registrations gvk,
        set_up (record { tenants = tenants_controller; redises = redises_controller }),
      )
  setup_redis-Registers gvk u = after_build-built _ _ (
      new_basic_controller-Registers lib.group_kind lib.informs lib.delete_key
        (redis_interface workqueue) (redis_options lib dec gvk redises_controller.reconciler) _ _
        refl refl u.redis ((u.stateful_set, tt), ((u.service, tt), tt)))

  -- The setup registers these handlers and ends with the two controllers.
  pub setup-Registers :
      (gvk : GroupVersionKind)
      → AllUsable lib
      → lib.redis_gvk ≡ some gvk
      → setup_controllers lib dec clients workqueue gomaxprocs order now ≡ (
        registrations gvk,
        set_up (record { tenants = tenants_controller; redises = redises_controller }),
      )
  unfolding setup_controllers
  setup-Registers gvk u known =
      after_build-built _ _ (
        new_basic_controller-Registers lib.group_kind lib.informs lib.delete_key
          (tenant_interface workqueue) (tenant_options lib dec tenants_controller.reconciler) _ _
          refl refl u.tenant tt)
      ∙ rw (known, setup_redis-Registers gvk u) refl
