-- ===== src/Informers.antt =====
-- pkg/kubernetes/client/informers/externalversions/factory.go: the factory of shared informers. `T`
-- stands for `reflect.Type`, and `I` for the informers.
pub mod Started
pub mod Synced
mod Tests
use Prim.Native.String.{String}
use k8s_controller_the_hard.Prelude.{
  Bool, true, false, Option, none, some, List, [], ◌∷◌, if◌then◌else◌,
}
use k8s_controller_the_hard.Prelude.Int.{ℤ}
use k8s_controller_the_hard.Prelude.GoMap
use k8s_controller_the_hard.Prelude.GoMap.{GoMap}

-- `started_informers` is the list of the types that map to true; `runs` has the types of the
-- informers that were run, newest first.
pub record SharedInformerFactory (T I : Type 0) : Type 0 where
  pub namespace : String
  pub default_resync : ℤ
  pub custom_resync : GoMap T ℤ
  pub tweaked : Bool
  pub informers : GoMap T I
  pub started_informers : GoMap T Bool
  pub runs : List T

-- `SharedInformerOption`: its three constructors.
pub data FactoryOption (T : Type 0) : Type 0 where
  with_custom_resync_config : GoMap T ℤ → FactoryOption T
  with_tweak_list_options : FactoryOption T
  with_namespace : String → FactoryOption T

-- The loop of `WithCustomResyncConfig`.
abbrev pub put_all : {T : Type 0} → Discrete T → GoMap T ℤ → GoMap T ℤ → GoMap T ℤ
put_all dec m [] = m
put_all dec m ((t, period) ∷ config) = put_all dec (GoMap.put dec m t period) config

module _ {T I : Type 0} (dec : Discrete T) where
  unfoldable pub apply_option :
      FactoryOption T → SharedInformerFactory T I → SharedInformerFactory T I
  apply_option (with_custom_resync_config config) f = record f {
    custom_resync = put_all dec f.custom_resync config;
  }
  apply_option with_tweak_list_options f = record f { tweaked = true }
  apply_option (with_namespace namespace) f = record f { namespace = namespace }

  unfoldable pub apply_options :
      List (FactoryOption T) → SharedInformerFactory T I → SharedInformerFactory T I
  apply_options [] f = f
  apply_options (o ∷ options) f = apply_options options (apply_option o f)

  -- `NewSharedInformerFactoryWithOptions`
  unfoldable pub new_factory : ℤ → List (FactoryOption T) → SharedInformerFactory T I
  new_factory default_resync options = apply_options options (record {
    namespace = "";
    default_resync = default_resync;
    custom_resync = [];
    tweaked = false;
    informers = [];
    started_informers = [];
    runs = [];
  })

  -- `f.startedInformers[informerType]`
  unfoldable pub is_started : SharedInformerFactory T I → T → Bool
  is_started f t = elim (GoMap.get dec f.started_informers t) [ none ↦ false | some b ↦ b ]

  -- One round of the loop of `Start`.
  unfoldable pub start_informer : SharedInformerFactory T I → T → SharedInformerFactory T I
  start_informer f t = if is_started f t then f else record f {
    runs = t ∷ f.runs;
    started_informers = GoMap.put dec f.started_informers t true;
  }

  unfoldable pub start_all : SharedInformerFactory T I → GoMap T I → SharedInformerFactory T I
  start_all f [] = f
  start_all f ((t, informer) ∷ rest) = start_all (start_informer f t) rest

  unfoldable pub start : SharedInformerFactory T I → SharedInformerFactory T I
  start f = start_all f f.informers

  -- `WaitForCacheSync`, with what the wait for one informer returns.
  unfoldable pub wait_all : (I → Bool) → SharedInformerFactory T I → GoMap T I → GoMap T Bool
  wait_all has_synced f [] = []
  wait_all has_synced f ((t, informer) ∷ rest) =
      if is_started f t
      then GoMap.put dec (wait_all has_synced f rest) t (has_synced informer)
      else wait_all has_synced f rest

  unfoldable pub wait_for_cache_sync : (I → Bool) → SharedInformerFactory T I → GoMap T Bool
  wait_for_cache_sync has_synced f = wait_all has_synced f f.informers

  -- The period of a new informer.
  unfoldable pub resync_period : SharedInformerFactory T I → T → ℤ
  resync_period f t = elim (GoMap.get dec f.custom_resync t) [
    | none ↦ f.default_resync
    | some period ↦ period
  ]

  -- `InformerFor`, with what the map holds for the type.
  abbrev pub informer_found :
      SharedInformerFactory T I → T → (ℤ → I) → Option I → SharedInformerFactory T I × I
  informer_found f t new_func (some informer) = (f, informer)
  informer_found f t new_func none =
      let informer = new_func (resync_period f t) in
      (record f { informers = GoMap.put dec f.informers t informer }, informer)

  unfoldable pub informer_for :
      SharedInformerFactory T I → T → (ℤ → I) → SharedInformerFactory T I × I
  informer_for f t new_func = informer_found f t new_func (GoMap.get dec f.informers t)
