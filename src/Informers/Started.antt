-- ===== src/Informers/Started.antt =====
-- pkg/kubernetes/client/informers/externalversions/factory.go: each informer is made once and run
-- once.
use k8s_controller_the_hard.Prelude.{
  ◌≡◌, ◌≢◌, ap, refl, sym, ◌∙◌, true, Option, none, some, List, [], ◌∷◌, if◌then◌else◌, arith,
  count, if_neg,
}
use k8s_controller_the_hard.Prelude.Int.{ℤ}
use k8s_controller_the_hard.Prelude.GoMap
use k8s_controller_the_hard.Prelude.GoMap.{GoMap}
use k8s_controller_the_hard.Informers.{
  SharedInformerFactory, FactoryOption, apply_option, apply_options, new_factory, is_started,
  start_informer, start_all, start, resync_period, informer_found, informer_for,
}

pub none≢some {ℓ} : {A : Type ℓ} (a : A) → none ≢ some a
none≢some a e = cc

-- The calls that change a factory.
pub data FactoryCall (T I : Type 0) : Type 0 where
  starts : FactoryCall T I
  asks : T → (ℤ → I) → FactoryCall T I

module _ {T I : Type 0} (dec : Discrete T) where
  abbrev pub call : SharedInformerFactory T I → FactoryCall T I → SharedInformerFactory T I
  call f starts = start dec f
  call f (asks t new_func) = (informer_for dec f t new_func).0

  unfoldable pub calls :
      SharedInformerFactory T I → List (FactoryCall T I) → SharedInformerFactory T I
  calls f [] = f
  calls f (c ∷ cs) = calls (call f c) cs

  -- The informer of a type was run once if it is started, and else not.
  abbrev pub RunsOnce : SharedInformerFactory T I → Type 0
  RunsOnce f = (t : T) → count dec t f.runs ≡ (if is_started dec f t then 1 else 0)

  start_informer-RunsOnce :
      (f : SharedInformerFactory T I) (s : T) → RunsOnce f → RunsOnce (start_informer dec f s)
  unfolding start_informer is_started
  start_informer-RunsOnce f s h t = elim (dec s t) [
    | yes p ↦ ground (arith, h t, p, GoMap.get-put dec f.started_informers s t true)
    | no n ↦ ground (arith, h t, n, GoMap.get-put dec f.started_informers s t true)
  ]

  start_all-RunsOnce :
      (f : SharedInformerFactory T I) (m : GoMap T I) → RunsOnce f → RunsOnce (start_all dec f m)
  unfolding start_all
  start_all-RunsOnce f [] h = h
  start_all-RunsOnce f ((t, i) ∷ m) h =
      start_all-RunsOnce (start_informer dec f t) m (start_informer-RunsOnce f t h)

  informer_for-RunsOnce :
      (f : SharedInformerFactory T I) (s : T) (new_func : ℤ → I)
      → RunsOnce f
      → RunsOnce (informer_for dec f s new_func).0
  unfolding informer_for is_started
  informer_for-RunsOnce f s new_func h t = ground (arith, h t)

  calls-RunsOnce :
      (f : SharedInformerFactory T I) (cs : List (FactoryCall T I))
      → RunsOnce f
      → RunsOnce (calls f cs)
  unfolding calls start
  calls-RunsOnce f [] h = h
  calls-RunsOnce f (starts ∷ cs) h =
      calls-RunsOnce (start dec f) cs (start_all-RunsOnce f f.informers h)
  calls-RunsOnce f (asks t new_func ∷ cs) h =
      calls-RunsOnce (informer_for dec f t new_func).0 cs (informer_for-RunsOnce f t new_func h)

  options-RunsOnce :
      (options : List (FactoryOption T)) (f : SharedInformerFactory T I)
      → RunsOnce f
      → RunsOnce (apply_options dec options f)
  unfolding apply_options apply_option is_started
  options-RunsOnce [] f h = h
  options-RunsOnce (FactoryOption.with_custom_resync_config config ∷ options) f h =
      options-RunsOnce options (apply_option dec (FactoryOption.with_custom_resync_config config) f)
        h
  options-RunsOnce (FactoryOption.with_tweak_list_options ∷ options) f h =
      options-RunsOnce options (apply_option dec FactoryOption.with_tweak_list_options f) h
  options-RunsOnce (FactoryOption.with_namespace namespace ∷ options) f h =
      options-RunsOnce options (apply_option dec (FactoryOption.with_namespace namespace) f) h

  -- However often `Start` and `InformerFor` are called, and in whatever order, an informer is run
  -- once if it is started, and not at all if not.
  pub runs_once :
      (period : ℤ) (options : List (FactoryOption T)) (cs : List (FactoryCall T I)) (t : T)
      → let f = calls (new_factory dec period options) cs in
        count dec t f.runs ≡ (if is_started dec f t then 1 else 0)
  unfolding new_factory is_started GoMap.get
  runs_once period options cs t =
      calls-RunsOnce (new_factory dec period options) cs (options-RunsOnce options _ (λ s. refl)) t

  pub start_all-informers :
      (f : SharedInformerFactory T I) (m : GoMap T I) → (start_all dec f m).informers ≡ f.informers
  unfolding start_all start_informer
  start_all-informers f [] = refl
  start_all-informers f ((t, i) ∷ m) =
      start_all-informers (start_informer dec f t) m ∙ (ground arith)

  found-keeps :
      (f : SharedInformerFactory T I) (s t : T) (new_func : ℤ → I) (i : I) (o : Option I)
      → GoMap.get dec f.informers s ≡ o
      → GoMap.get dec f.informers t ≡ some i
      → GoMap.get dec (informer_found dec f s new_func o).0.informers t ≡ some i
  found-keeps f s t new_func i (some j) h e = e
  found-keeps f s t new_func i none h e = elim (dec s t) [
    | yes p ↦ absurd (none≢some _ (sym h ∙ ap (λ x. GoMap.get dec f.informers x) p ∙ e))
    | no n ↦
        GoMap.get-put dec f.informers s t (new_func (resync_period dec f s))
        ∙ if_neg (dec s t) n _ _
        ∙ e
  ]

  call-keeps :
      (f : SharedInformerFactory T I) (c : FactoryCall T I) (t : T) (i : I)
      → GoMap.get dec f.informers t ≡ some i
      → GoMap.get dec (call f c).informers t ≡ some i
  unfolding start informer_for
  call-keeps f starts t i e = rw (start_all-informers f f.informers) e
  call-keeps f (asks s new_func) t i e =
      found-keeps f s t new_func i (GoMap.get dec f.informers s) refl e

  calls-keeps :
      (f : SharedInformerFactory T I) (cs : List (FactoryCall T I)) (t : T) (i : I)
      → GoMap.get dec f.informers t ≡ some i
      → GoMap.get dec (calls f cs).informers t ≡ some i
  unfolding calls
  calls-keeps f [] t i e = e
  calls-keeps f (c ∷ cs) t i e = calls-keeps (call f c) cs t i (call-keeps f c t i e)

  informer_for-found :
      (f : SharedInformerFactory T I) (t : T) (new_func : ℤ → I) (i : I)
      → GoMap.get dec f.informers t ≡ some i
      → (informer_for dec f t new_func).1 ≡ i
  unfolding informer_for
  informer_for-found f t new_func i e = rw e refl

  found-stored :
      (f : SharedInformerFactory T I) (t : T) (new_func : ℤ → I) (o : Option I)
      → GoMap.get dec f.informers t ≡ o
      → GoMap.get dec (informer_found dec f t new_func o).0.informers t
        ≡ some (informer_found dec f t new_func o).1
  found-stored f t new_func (some j) h = h
  found-stored f t new_func none h =
      GoMap.get-put dec f.informers t t (new_func (resync_period dec f t)) ∙ ground arith

  informer_for-stored :
      (f : SharedInformerFactory T I) (t : T) (new_func : ℤ → I)
      → GoMap.get dec (informer_for dec f t new_func).0.informers t
        ≡ some (informer_for dec f t new_func).1
  unfolding informer_for
  informer_for-stored f t new_func = found-stored f t new_func (GoMap.get dec f.informers t) refl

  -- Once `InformerFor` returned an informer for a type, it returns the same one for the type after any
  -- calls, whatever function to make an informer it is given.
  pub same_informer :
      (f : SharedInformerFactory T I) (t : T) (first second : ℤ → I) (cs : List (FactoryCall T I))
      → (informer_for dec (calls (informer_for dec f t first).0 cs) t second).1
        ≡ (informer_for dec f t first).1
  same_informer f t first second cs =
      informer_for-found _ t second _ (calls-keeps _ cs t _ (informer_for-stored f t first))
