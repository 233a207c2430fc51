-- ===== src/Startup/Handled.antt =====
-- main.go: what the setup of the controllers does with the events of each of the four resources.
use Prim.Native.String.{String}
use k8s_controller_the_hard.Prelude.{
  ℕ, ◌≡◌, ◌⊎◌, ◌↔◌, inl, inr, refl, sym, ◌∙◌, Bool, true, Option, none, some, [], ◌∷◌, Bool-cases,
  false≢true,
}
use k8s_controller_the_hard.Prelude.Int.{pos}
use k8s_controller_the_hard.Controller.Predicate.{
  ObjectMeta, GroupVersionKind, both_meta, version_changed, resource_version_predicate,
}
use k8s_controller_the_hard.Controller.Predicate.Laws.{
  Event, added, updated, deleted, accepts, Watched, VersionChanged, version_changed_iff,
}
use k8s_controller_the_hard.Controller.Worker.{RateLimitingInterface}
use k8s_controller_the_hard.Controller.Handler.{new_enqueue_handler, enqueue_key}
use k8s_controller_the_hard.Controller.Handler.Kept.{handle, handle-eq, object_of}
use k8s_controller_the_hard.Controller.Build.{Item, Registration}
use k8s_controller_the_hard.Startup.{
  World, Libraries, Clients, set_up, Controllers, tenant_interface, redis_interface,
  setup_controllers,
}
use k8s_controller_the_hard.Startup.Registered.{AllUsable, setup-Registers}
use k8s_controller_the_hard.Startup.Chained.{child_event-cases, request_redis, parent_of}

module _ {O : Type 0} (accessor : O → Option ObjectMeta) where
  -- The events on a Tenant or a Redis that concern its controller: each add and each delete, and an
  -- update of readable objects whose new resource version is empty or is not the old one.
  abbrev pub Concerns : Event O → Type 0
  Concerns (added obj) = Unit {0}
  Concerns (deleted obj) = Unit {0}
  Concerns (updated old new) =
      (a b : ObjectMeta) × (accessor old ≡ some a) × (accessor new ≡ some b) × VersionChanged a b

  both-Concerns :
      (old new : O) (a b : Option ObjectMeta)
      → accessor old ≡ a
      → accessor new ≡ b
      → both_meta version_changed a b ≡ true
      → Concerns (updated old new)
  both-Concerns old new none b ea eb h = absurd (false≢true h)
  both-Concerns old new (some a) none ea eb h = absurd (false≢true h)
  both-Concerns old new (some a) (some b) ea eb h = (a, b, ea, eb, (version_changed_iff a b).0 h)

  main_predicate_iff :
      (e : Event O) → (accepts (resource_version_predicate accessor) e ≡ true) ↔ Concerns e
  main_predicate_iff (added obj) = (λ h. tt, λ h. refl)
  main_predicate_iff (deleted obj) = (λ h. tt, λ h. refl)
  main_predicate_iff (updated old new) = (
    both-Concerns old new (accessor old) (accessor new) refl refl,
    λ (a, b, ea, eb, v). rw (ea, eb) ((version_changed_iff a b).1 v),
  )

module _ {O Q W : Type 0} (now : ℕ) where
  -- A registration of the resource, without a resync, that handles the event in the world: where the
  -- event concerns it the world becomes `next`, and else it stays.
  pub record Handles (r : Registration O (World Q W)) (resource : O) (Concerned : Type 0)
      (w next : World Q W) (e : Event O) : Type 0 where
    pub resource_of : r.resource ≡ resource
    pub no_resync : r.period ≡ some (pos 0)
    pub event :
        (Concerned × (handle r.handler now w e ≡ next))
        ⊎ ((¬ Concerned) × (handle r.handler now w e ≡ w))

-- The queue with an item more, if there is one.
abbrev pub with_item : {Q : Type 0} → RateLimitingInterface Item Q → ℕ → Q → Option Item → Q
with_item workqueue now q none = q
with_item workqueue now q (some item) = workqueue.add now q item

module _ {O Q W : Type 0} (lib : Libraries O) (workqueue : RateLimitingInterface Item Q)
    (now : ℕ) where
  tenant_queue-eq :
      (w : World Q W) (m : Option Item)
      → enqueue_key
          (new_enqueue_handler
            (tenant_interface workqueue)
            lib.delete_key
            (some (resource_version_predicate lib.accessor)))
          now
          w
          m
        ≡ record w { tenant_queue = with_item workqueue now w.tenant_queue m }
  unfolding new_enqueue_handler
  tenant_queue-eq w none = refl
  tenant_queue-eq w (some i) = refl

  redis_queue-eq :
      (w : World Q W) (m : Option Item)
      → enqueue_key
          (new_enqueue_handler
            (redis_interface workqueue)
            lib.delete_key
            (some (resource_version_predicate lib.accessor)))
          now
          w
          m
        ≡ record w { redis_queue = with_item workqueue now w.redis_queue m }
  unfolding new_enqueue_handler
  redis_queue-eq w none = refl
  redis_queue-eq w (some i) = refl

  main-cases :
      (iface : RateLimitingInterface Item (World Q W)) (w next : World Q W) (e : Event O)
      → enqueue_key
          (new_enqueue_handler iface lib.delete_key
            (some (resource_version_predicate lib.accessor)))
          now
          w
          (lib.delete_key (object_of e))
        ≡ next
      → (Concerns lib.accessor e
          × (handle
                (new_enqueue_handler iface lib.delete_key
                  (some (resource_version_predicate lib.accessor)))
                now
                w
                e
              ≡ next))
        ⊎ ((¬ Concerns lib.accessor e)
            × (handle
                  (new_enqueue_handler iface lib.delete_key
                    (some (resource_version_predicate lib.accessor)))
                  now
                  w
                  e
                ≡ w))
  main-cases iface w next e taken =
      let eq =
        handle-eq iface lib.delete_key (some (resource_version_predicate lib.accessor)) now w e in
      let iff = main_predicate_iff lib.accessor e in
      elim (Bool-cases (accepts (resource_version_predicate lib.accessor) e)) [
        | inl y ↦ inl (iff.0 y, eq ∙ rw y taken)
        | inr n ↦ inr (λ h. false≢true (sym n ∙ iff.1 h), eq ∙ rw n refl)
      ]

module _ {F Ow O Q W : Type 0} (lib : Libraries O) (dec : Discrete String)
    (clients : Clients F Ow W) (workqueue : RateLimitingInterface Item Q) (gomaxprocs : ℕ)
    (order : Bool) (now : ℕ) where
  -- If the four resources have kinds and informers and the Redis kind is known, the setup of `main`
  -- neither exits nor panics, and registers four handlers, none with a resync. Each add and delete of
  -- a Tenant or a Redis, and each update of one to another resource version, adds the key of the
  -- object to the queue of its controller; an update of a StatefulSet or a Service that concerns a
  -- Redis adds the key of its parent to the queue of the Redis controller; no other event on the four
  -- changes anything.
  pub setup-Handles :
      (gvk : GroupVersionKind) (w : World Q W) (e : Event O)
      → AllUsable lib
      → lib.redis_gvk ≡ some gvk
      → (t r s v : Registration O (World Q W)) × (controllers : Controllers (World Q W))
        × (setup_controllers lib dec clients workqueue gomaxprocs order now
            ≡ (t ∷ r ∷ s ∷ v ∷ [], set_up controllers))
        × Handles now t lib.tenant
            (Concerns lib.accessor e)
            w
            (record w {
              tenant_queue = with_item workqueue now w.tenant_queue (lib.delete_key (object_of e));
            })
            e
        × Handles now r lib.redis
            (Concerns lib.accessor e)
            w
            (record w {
              redis_queue = with_item workqueue now w.redis_queue (lib.delete_key (object_of e));
            })
            e
        × Handles now s lib.stateful_set
            (Watched lib.accessor gvk e)
            w
            (request_redis workqueue now w (parent_of lib dec (object_of e)))
            e
        × Handles now v lib.service
            (Watched lib.accessor gvk e)
            w
            (request_redis workqueue now w (parent_of lib dec (object_of e)))
            e
  setup-Handles gvk w e u known = (
    _,
    _,
    _,
    _,
    _,
    setup-Registers lib dec clients workqueue gomaxprocs order now gvk u known,
    record {
      resource_of = refl;
      no_resync = refl;
      event =
          main-cases lib workqueue now (tenant_interface workqueue) w _ e
            (tenant_queue-eq lib workqueue now w (lib.delete_key (object_of e)));
    },
    record {
      resource_of = refl;
      no_resync = refl;
      event =
          main-cases lib workqueue now (redis_interface workqueue) w _ e
            (redis_queue-eq lib workqueue now w (lib.delete_key (object_of e)));
    },
    record {
      resource_of = refl;
      no_resync = refl;
      event = child_event-cases lib dec workqueue gvk now lib.stateful_set w e;
    },
    record {
      resource_of = refl;
      no_resync = refl;
      event = child_event-cases lib dec workqueue gvk now lib.service w e;
    },
  )
