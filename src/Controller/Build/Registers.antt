-- ===== src/Controller/Build/Registers.antt =====
-- pkg/utils/controller/basictype.go and playboytype.go: what the constructors register.
use Prim.Native.String.{String}
use k8s_controller_the_hard.Prelude.{
  ◌≡◌, refl, sym, ap, ◌∙◌, Bool, true, Option, none, some, List, [], ◌∷◌, ◌++◌,
}
use k8s_controller_the_hard.Prelude.Int.{ℤ}
use k8s_controller_the_hard.Controller.Predicate.Laws.{All}
use k8s_controller_the_hard.Controller.Worker.{RateLimitingInterface, Outcome}
use k8s_controller_the_hard.Controller.Handler.{get_name}
use k8s_controller_the_hard.Controller.Build.{
  Item, WatchOption, Options, Registration, Worker, built, crashed, validate_options,
  register_watch, watch_registration, watch_all, main_registration, build, new_playboy_type,
  new_basic_controller,
}

append_assoc : {A : Type 0} (xs ys zs : List A) → (xs ++ ys) ++ zs ≡ xs ++ (ys ++ zs)
append_assoc [] ys zs = refl
append_assoc (x ∷ xs) ys zs = ap (λ l. x ∷ l) (append_assoc xs ys zs)

abbrev pub Fits : Option ℤ → Option ℤ → Type 0
Fits none own = own ≡ none
Fits (some d) own = Unit {0}

append_nil : {A : Type 0} (xs : List A) → xs ++ [] ≡ xs
append_nil [] = refl
append_nil (x ∷ xs) = ap (λ l. x ∷ l) (append_nil xs)

module _ {O : Type 0} (group_kind : O → Option String) (informs : O → Bool) where
  -- The kind of the resource is known, and it has an informer.
  abbrev pub Usable : O → Type 0
  Usable o = (gk : String) × (group_kind o ≡ some gk) × (informs o ≡ true)

  -- And the option has no period of its own, unless the controller has one.
  abbrev pub Ready : Option ℤ → WatchOption O → Type 0
  Ready main o = Usable o.resource × Fits main o.resync_period

-- The period that the watch is registered with: that of the controller, if it has one of its own.
abbrev pub watch_period : Option ℤ → Option ℤ → Option ℤ
watch_period main none = none
watch_period main (some _) = main

module _ {O Q : Type 0} (queue : RateLimitingInterface Item Q) where
  abbrev pub watches : Option ℤ → List (WatchOption O) → List (Registration O Q)
  watches main [] = []
  watches main (o ∷ os) =
      watch_registration queue o (watch_period main o.resync_period) ∷ watches main os

  register_watch-Fits :
      (main : Option ℤ) (o : WatchOption O) (gk : String) (own : Option ℤ)
      → Fits main own
      → register_watch queue main o (some gk) true own
        ≡ built (watch_registration queue o (watch_period main own))
  register_watch-Fits none o gk none f = refl
  register_watch-Fits none o gk (some d) f = cc
  register_watch-Fits (some d) o gk none f = refl
  register_watch-Fits (some d) o gk (some e) f = refl

module _ {O Q : Type 0} (group_kind : O → Option String) (informs : O → Bool)
    (queue : RateLimitingInterface Item Q) where
  watch_all-cons :
      {A : Type 0} (main : Option ℤ) (ret : A) (o : WatchOption O) (os : List (WatchOption O))
      (log : List (Registration O Q))
      → Ready group_kind informs main o
      → watch_all group_kind informs queue main ret (o ∷ os) log
        ≡ watch_all group_kind informs queue main ret os
            (log ++ watch_registration queue o (watch_period main o.resync_period) ∷ [])
  unfolding watch_all
  watch_all-cons main ret o os log ((gk, k, i), f) =
      rw (k, i, register_watch-Fits queue main o gk o.resync_period f) refl

  watch_all-Ready :
      {A : Type 0} (main : Option ℤ) (ret : A) (os rest : List (WatchOption O))
      (log : List (Registration O Q))
      → All (Ready group_kind informs main) os
      → watch_all group_kind informs queue main ret (os ++ rest) log
        ≡ watch_all group_kind informs queue main ret rest (log ++ watches queue main os)
  watch_all-Ready main ret [] rest log all =
      ap (λ l. watch_all group_kind informs queue main ret rest l) (sym (append_nil log))
  watch_all-Ready main ret (o ∷ os) rest log (h, all) =
      watch_all-cons main ret o (os ++ rest) log h
      ∙ watch_all-Ready main ret os rest _ all
      ∙ ap (λ l. watch_all group_kind informs queue main ret rest l)
          (append_assoc log _ (watches queue main os))

  watch_all-built :
      {A : Type 0} (main : Option ℤ) (ret : A) (os : List (WatchOption O))
      (log : List (Registration O Q))
      → All (Ready group_kind informs main) os
      → watch_all group_kind informs queue main ret os log
        ≡ (log ++ watches queue main os, built ret)
  unfolding watch_all
  watch_all-built main ret [] log all = ap (λ l. (l, built ret)) (sym (append_nil log))
  watch_all-built main ret (o ∷ os) log (h, all) =
      watch_all-cons main ret o os log h
      ∙ watch_all-built main ret os _ all
      ∙ ap (λ l. (l, built ret)) (append_assoc log _ (watches queue main os))

  watch_all-crashed :
      {A : Type 0} (ret : A) (os rest : List (WatchOption O)) (o : WatchOption O) (d : ℤ)
      (log : List (Registration O Q))
      → All (Ready group_kind informs none) os
      → Usable group_kind informs o.resource
      → o.resync_period ≡ some d
      → watch_all group_kind informs queue none ret (os ++ o ∷ rest) log
        ≡ (log ++ watches queue none os, crashed)
  unfolding watch_all
  watch_all-crashed ret os rest o d log all (gk, k, i) own =
      watch_all-Ready none ret os (o ∷ rest) log all ∙ rw (k, i, own) refl

module _ {O Q : Type 0} (group_kind : O → Option String) (informs : O → Bool)
    (delete_key : O → Option Item) (queue : RateLimitingInterface Item Q) where
  build-valid :
      {A : Type 0} (options : Options O Q) (ret : (String → Q → Q × Outcome) → String → A)
      {reconciler : String → Q → Q × Outcome} {resource : O}
      → options.reconciler ≡ some reconciler
      → options.resource ≡ some resource
      → Usable group_kind informs resource
      → build group_kind informs delete_key queue options ret
        ≡ watch_all group_kind informs queue options.resync_period
            (ret reconciler (get_name options.name (group_kind resource)))
            options.watch_options
            (main_registration queue delete_key options resource ∷ [])
  unfolding build validate_options
  build-valid options ret r o (gk, k, i) = rw (r, o, k, i) refl

  build-Registers :
      {A : Type 0} (options : Options O Q) (ret : (String → Q → Q × Outcome) → String → A)
      {reconciler : String → Q → Q × Outcome} {resource : O}
      → options.reconciler ≡ some reconciler
      → options.resource ≡ some resource
      → Usable group_kind informs resource
      → All (Ready group_kind informs options.resync_period) options.watch_options
      → build group_kind informs delete_key queue options ret ≡ (
        main_registration queue delete_key options resource
            ∷ watches queue options.resync_period options.watch_options,
        built (ret reconciler (get_name options.name (group_kind resource))),
      )
  build-Registers options ret r o u all =
      build-valid options ret r o u
      ∙ watch_all-built group_kind informs queue _ _ options.watch_options _ all

  -- With a reconciler, a resource and usable watch options, `NewPlayboyType` returns a controller on
  -- the two workers and that reconciler. It registers the resource with `options.ResyncPeriod`, and
  -- each watch, in order, without a period if it has none of its own, and else with
  -- `options.ResyncPeriod`, never with its own.
  pub new_playboy_type-Registers :
      (options : Options O Q) (fresh staled : Worker) {reconciler : String → Q → Q × Outcome}
      {resource : O}
      → options.reconciler ≡ some reconciler
      → options.resource ≡ some resource
      → Usable group_kind informs resource
      → All (Ready group_kind informs options.resync_period) options.watch_options
      → new_playboy_type group_kind informs delete_key queue options fresh staled ≡ (
        main_registration queue delete_key options resource
            ∷ watches queue options.resync_period options.watch_options,
        built (record {
          reconciler = reconciler;
          queue = queue;
          fresh_worker = fresh;
          staled_worker = staled;
          logger_name = get_name options.name (group_kind resource);
        }),
      )
  unfolding new_playboy_type
  new_playboy_type-Registers options fresh staled r o u all = build-Registers options _ r o u all

  pub new_basic_controller-Registers :
      (options : Options O Q) (reconcile_timeout concurrency : ℤ)
      {reconciler : String → Q → Q × Outcome} {resource : O}
      → options.reconciler ≡ some reconciler
      → options.resource ≡ some resource
      → Usable group_kind informs resource
      → All (Ready group_kind informs options.resync_period) options.watch_options
      → new_basic_controller group_kind informs delete_key queue options reconcile_timeout
          concurrency
        ≡ (
          main_registration queue delete_key options resource
              ∷ watches queue options.resync_period options.watch_options,
          built (record {
            reconciler = reconciler;
            queue = queue;
            worker = record { reconcile_timeout = reconcile_timeout; concurrency = concurrency };
            logger_name = get_name options.name (group_kind resource);
          }),
        )
  unfolding new_basic_controller
  new_basic_controller-Registers options t c r o u all = build-Registers options _ r o u all

  -- Without `options.ResyncPeriod`, `NewBasicController` dereferences a nil pointer at the first
  -- watch option with a period of its own, if those before it are usable; the handlers before it are
  -- registered.
  pub new_basic_controller_crashes :
      (options : Options O Q) (reconcile_timeout concurrency : ℤ)
      (before after : List (WatchOption O)) (o : WatchOption O) (d : ℤ)
      {reconciler : String → Q → Q × Outcome} {resource : O}
      → options.reconciler ≡ some reconciler
      → options.resource ≡ some resource
      → Usable group_kind informs resource
      → options.resync_period ≡ none
      → options.watch_options ≡ before ++ o ∷ after
      → All (Ready group_kind informs none) before
      → Usable group_kind informs o.resource
      → o.resync_period ≡ some d
      → new_basic_controller group_kind informs delete_key queue options reconcile_timeout
          concurrency
        ≡ (main_registration queue delete_key options resource ∷ watches queue none before, crashed)
  unfolding new_basic_controller
  new_basic_controller_crashes options t c before after o d r res u m w all uo own =
      build-valid options _ r res u
      ∙ rw (m, w) (watch_all-crashed group_kind informs queue _ before after o d _ all uo own)
