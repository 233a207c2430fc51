-- ===== src/Controller/Build.antt =====
-- pkg/utils/controller: `validateOptions` of controller.go and the constructors of basictype.go and
-- playboytype.go, over objects `O`. `group_kind` is `GVKForObject` with the group and kind as a string
-- and `informs` whether `GetInformer` finds an informer, both of the libraries; the queue, made by a
-- constructor of a queue, is an argument. Workers keep their timeout and concurrency.
pub mod Registers
pub mod ObjectKeys
use Prim.Native.String.{String}
use k8s_controller_the_hard.Prelude.{
  ℕ, Bool, true, false, not, Option, none, some, List, [], ◌∷◌, ◌++◌, if◌then◌else◌,
}
use k8s_controller_the_hard.Prelude.Int.{ℤ}
use k8s_controller_the_hard.Controller.Predicate.{Predicate}
use k8s_controller_the_hard.Controller.Worker.{RateLimitingInterface, Outcome}
use k8s_controller_the_hard.Controller.Handler.{EnqueueHandler, new_enqueue_handler, get_name}

-- What a queue holds: `interface{}` values, of which the package adds keys, and `ObjectKey`s.
pub data Item : Type 0 where
  key : String → Item
  object_key : String → String → Item

-- The assertion `item.(string)`.
abbrev pub as_string : Item → Option String
as_string (key s) = some s
as_string (object_key namespace name) = none

pub record WatchOption (O : Type 0) : Type 0 where
  pub resource : O
  pub predicate : Option (Predicate O)
  pub get_key_func : O → Option Item
  pub resync_period : Option ℤ

pub record Options (O Q : Type 0) : Type 0 where
  pub name : String
  pub resource : Option O
  pub reconciler : Option (String → Q → Q × Outcome)
  pub predicate : Option (Predicate O)
  pub resync_period : Option ℤ
  pub watch_options : List (WatchOption O)

-- The errors that the constructors return.
pub data BuildError : Type 0 where
  nil_reconciler nil_resource unknown_kind : BuildError
  no_informer : String → BuildError

-- How a constructor ends; `crashed` is the dereference of a nil pointer.
pub data Built (A : Type 0) : Type 0 where
  built : A → Built A
  refused : BuildError → Built A
  crashed : Built A

-- A call of `AddEventHandler`, or of `AddEventHandlerWithResyncPeriod`, on the resource's informer.
pub record Registration (O Q : Type 0) : Type 0 where
  pub resource : O
  pub handler : EnqueueHandler O Item Q
  pub period : Option ℤ

pub record Worker : Type 0 where
  pub reconcile_timeout : ℤ
  pub concurrency : ℤ

pub record BasicType (Q : Type 0) : Type 0 where
  pub reconciler : String → Q → Q × Outcome
  pub queue : RateLimitingInterface Item Q
  pub worker : Worker
  pub logger_name : String

pub record PlayboyType (Q : Type 0) : Type 0 where
  pub reconciler : String → Q → Q × Outcome
  pub queue : RateLimitingInterface Item Q
  pub fresh_worker : Worker
  pub staled_worker : Worker
  pub logger_name : String

module _ {O Q : Type 0} where
  -- The reconciler and the resource, where both are there.
  unfoldable pub validate_options : Options O Q → Built ((String → Q → Q × Outcome) × O)
  validate_options options = elim options.reconciler [
    | none ↦ refused nil_reconciler
    | some reconciler ↦ elim options.resource [
      | none ↦ refused nil_resource
      | some resource ↦ built (reconciler, resource)
    ]
  ]

module _ {O Q : Type 0} (queue : RateLimitingInterface Item Q) where
  abbrev pub watch_registration : WatchOption O → Option ℤ → Registration O Q
  watch_registration o period = record {
    resource = o.resource;
    handler = new_enqueue_handler queue o.get_key_func o.predicate;
    period = period;
  }

  -- One round of the loop over the watch options, from `options.ResyncPeriod`, the kind, whether
  -- there is an informer, and `o.ResyncPeriod`.
  abbrev pub register_watch :
      Option ℤ → WatchOption O → Option String → Bool → Option ℤ → Built (Registration O Q)
  register_watch main o none informer own = refused unknown_kind
  register_watch main o (some gk) false own = refused (no_informer gk)
  register_watch main o (some gk) true none = built (watch_registration o none)
  register_watch none o (some gk) true (some _) = crashed
  register_watch (some d) o (some gk) true (some _) = built (watch_registration o (some d))

  abbrev pub main_registration : (O → Option Item) → Options O Q → O → Registration O Q
  main_registration delete_key options resource = record {
    resource = resource;
    handler = new_enqueue_handler queue delete_key options.predicate;
    period = options.resync_period;
  }

-- Goes on with one registration more, or returns.
abbrev pub continue_with :
    {R A : Type 0} → List R → Built R → (List R → List R × Built A) → List R × Built A
continue_with log (built r) next = next (log ++ r ∷ [])
continue_with log (refused e) next = (log, refused e)
continue_with log crashed next = (log, crashed)

module _ {O Q : Type 0} (group_kind : O → Option String) (informs : O → Bool)
    (queue : RateLimitingInterface Item Q) where
  -- The loop, with the registrations so far.
  unfoldable pub watch_all :
      {A : Type 0}
      → Option ℤ
      → A
      → List (WatchOption O)
      → List (Registration O Q)
      → List (Registration O Q) × Built A
  watch_all main ret [] log = (log, built ret)
  watch_all main ret (o ∷ os) log =
      continue_with log
        (register_watch queue main o (group_kind o.resource) (informs o.resource) o.resync_period)
        (λ l. watch_all main ret os l)

module _ {O Q : Type 0} (group_kind : O → Option String) (informs : O → Bool)
    (delete_key : O → Option Item) (queue : RateLimitingInterface Item Q) where
  -- The lookups of the main resource, and the rest.
  abbrev pub build_resource :
      {A : Type 0} → Options O Q → O → A → Option String → Bool → List (Registration O Q) × Built A
  build_resource options resource ret none informer = ([], refused unknown_kind)
  build_resource options resource ret (some gk) false = ([], refused (no_informer gk))
  build_resource options resource ret (some gk) true =
      watch_all group_kind informs queue options.resync_period ret options.watch_options
        (main_registration queue delete_key options resource ∷ [])

  -- The rest after `validateOptions`.
  abbrev pub build_valid :
      {A : Type 0}
      → Options O Q
      → ((String → Q → Q × Outcome) → String → A)
      → Built ((String → Q → Q × Outcome) × O)
      → List (Registration O Q) × Built A
  build_valid options ret (refused e) = ([], refused e)
  build_valid options ret crashed = ([], crashed)
  build_valid options ret (built (reconciler, resource)) =
      build_resource options resource (ret reconciler (get_name options.name (group_kind resource)))
        (group_kind resource) (informs resource)

  -- The part that the two constructors share; `ret` makes the controller at the end, from the
  -- reconciler and the name of the logger. `delete_key` is `DeletionHandlingMetaNamespaceKeyFunc`.
  unfoldable pub build :
      {A : Type 0}
      → Options O Q
      → ((String → Q → Q × Outcome) → String → A)
      → List (Registration O Q) × Built A
  build options ret = build_valid options ret (validate_options options)

  unfoldable pub new_basic_controller :
      Options O Q → ℤ → ℤ → List (Registration O Q) × Built (BasicType Q)
  new_basic_controller options reconcile_timeout concurrency = build options (λ reconciler name.
      record {
        reconciler = reconciler;
        queue = queue;
        worker = record { reconcile_timeout = reconcile_timeout; concurrency = concurrency };
        logger_name = name;
      })

  unfoldable pub new_playboy_type :
      Options O Q → Worker → Worker → List (Registration O Q) × Built (PlayboyType Q)
  new_playboy_type options fresh staled = build options (λ reconciler name. record {
    reconciler = reconciler;
    queue = queue;
    fresh_worker = fresh;
    staled_worker = staled;
    logger_name = name;
  })

-- `Enqueue` and `EnqueueObject`, with the namespace and name of the object.
module _ {Q : Type 0} where
  unfoldable pub enqueue : RateLimitingInterface Item Q → ℕ → Q → String → Q
  enqueue queue now q s = queue.add now q (key s)

  unfoldable pub enqueue_object : RateLimitingInterface Item Q → ℕ → Q → String → String → Q
  enqueue_object queue now q namespace name = queue.add now q (object_key namespace name)
