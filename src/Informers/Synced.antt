-- ===== src/Informers/Synced.antt =====
-- pkg/kubernetes/client/informers/externalversions/factory.go: which informers `WaitForCacheSync`
-- reports.
use k8s_controller_the_hard.Prelude.{
  ◌≡◌, refl, sym, ◌∙◌, Bool, true, Option, none, some, [], ◌∷◌, if◌then◌else◌, arith, ite, if_pos,
  if_neg, ap,
}
use k8s_controller_the_hard.Prelude.GoMap
use k8s_controller_the_hard.Prelude.GoMap.{GoMap}
use k8s_controller_the_hard.Informers.{
  SharedInformerFactory, is_started, start_informer, start_all, start, wait_all,
  wait_for_cache_sync,
}
use k8s_controller_the_hard.Informers.Started.{start_all-informers, none≢some}

abbrev pub map_option : {A B : Type 0} → (A → B) → Option A → Option B
map_option f none = none
map_option f (some a) = some (f a)

module _ {T I : Type 0} (dec : Discrete T) where
  start_informer-is_started :
      (f : SharedInformerFactory T I) (s t : T)
      → is_started dec (start_informer dec f s) t ≡ ite (dec s t) true (is_started dec f t)
  unfolding is_started start_informer
  start_informer-is_started f s t = elim (dec s t) [
    | yes p ↦ rw (if_pos _ p) (ground (arith, p, GoMap.get-put dec f.started_informers s t true))
    | no n ↦ rw (if_neg _ n) (ground (arith, n, GoMap.get-put dec f.started_informers s t true))
  ]

  start_all-monotone :
      (f : SharedInformerFactory T I) (m : GoMap T I) (t : T)
      → is_started dec f t ≡ true
      → is_started dec (start_all dec f m) t ≡ true
  unfolding start_all
  start_all-monotone f [] t h = h
  start_all-monotone f ((s, i) ∷ m) t h =
      start_all-monotone (start_informer dec f s) m t
        (ground (arith, h, start_informer-is_started f s t))

  start_all-is_started :
      (f : SharedInformerFactory T I) (m : GoMap T I) (t : T) (i : I)
      → GoMap.get dec m t ≡ some i
      → is_started dec (start_all dec f m) t ≡ true
  unfolding start_all GoMap.get
  start_all-is_started f [] t i e = absurd (none≢some i e)
  start_all-is_started f ((s, j) ∷ m) t i e = elim (dec s t) [
    | yes p ↦
        start_all-monotone (start_informer dec f s) m t
          (start_informer-is_started f s t ∙ if_pos (dec s t) p _ _)
    | no n ↦ start_all-is_started (start_informer dec f s) m t i (sym (if_neg (dec s t) n _ _) ∙ e)
  ]

  wait_all-get :
      (has_synced : I → Bool) (f : SharedInformerFactory T I) (m : GoMap T I) (t : T)
      → GoMap.get dec (wait_all dec has_synced f m) t
        ≡ (if is_started dec f t then map_option has_synced (GoMap.get dec m t) else none)
  unfolding wait_all GoMap.get
  wait_all-get has_synced f [] t = ground arith
  wait_all-get has_synced f ((s, i) ∷ m) t = ground (
    arith,
    wait_all-get has_synced f m t,
    GoMap.get-put dec (wait_all dec has_synced f m) s t (has_synced i),
  )

  start-waits_for :
      (has_synced : I → Bool) (f : SharedInformerFactory T I) (t : T) (o : Option I)
      → GoMap.get dec f.informers t ≡ o
      → (if is_started dec (start_all dec f f.informers) t then map_option has_synced o else none)
        ≡ map_option has_synced o
  start-waits_for has_synced f t none e = ground arith
  start-waits_for has_synced f t (some i) e = rw (start_all-is_started f f.informers t i e)

  -- After `Start`, `WaitForCacheSync` reports all informers that the factory made, each with whether
  -- it synced, and no other.
  pub start-waits :
      (has_synced : I → Bool) (f : SharedInformerFactory T I) (t : T)
      → GoMap.get dec (wait_for_cache_sync dec has_synced (start dec f)) t
        ≡ map_option has_synced (GoMap.get dec f.informers t)
  unfolding wait_for_cache_sync start
  start-waits has_synced f t =
      wait_all-get has_synced (start_all dec f f.informers) (start_all dec f f.informers).informers
        t
      ∙ ap
          (λ m.
            if is_started dec (start_all dec f f.informers) t
            then map_option has_synced (GoMap.get dec m t)
            else none)
          (start_all-informers dec f f.informers)
      ∙ start-waits_for has_synced f t (GoMap.get dec f.informers t) refl
