-- ===== src/Exporters/Registers.antt =====
-- pkg/kubernetes/metrics: what is registered after `InstallDefault`.
use Prim.Native.String.{String}
use k8s_controller_the_hard.Prelude.{
  ◌≡◌, refl, Bool, true, false, ◌&&◌, ◌||◌, none, some, List, [], ◌∷◌, Run, ok, panic, arith,
}
use k8s_controller_the_hard.Exporters.{
  Vector, Instrument, id_of, contains, Registerer, absent, IsRegisterer,
}
use k8s_controller_the_hard.Exporters.QueueProvider.{
  build_workqueue_metrics_provider, queue_collectors,
}
use k8s_controller_the_hard.Exporters.ReflectorProvider.{build_reflector_metrics_provider}
use k8s_controller_the_hard.Exporters.Install.{
  Installed, install_workqueue, install_reflector, install_default,
}
use k8s_controller_the_hard.Exporters.Names.{
  queue_vectors, reflector_vectors, disjoint, queue-distinct, reflector-distinct, queue-disjoint,
  default_instruments, covered, instruments-covered, queue-contains,
}

module _ {R : Type 0} (registerer : Registerer R) where
  absent-after :
      (r s : R) (vs ws : List Vector)
      → ((id : String)
          → registerer.registered s id ≡ (registerer.registered r id || contains vs id))
      → absent registerer r ws ≡ true
      → disjoint vs ws ≡ true
      → absent registerer s ws ≡ true
  unfolding absent
  absent-after r s vs [] h a d = refl
  absent-after r s vs (w ∷ ws) h a d =
      ground
        (arith, a, d, h (id_of w), absent-after r s vs ws h (ground (arith, a)) (ground (arith, d)))

  -- The vector of each instrument is registered.
  abbrev pub exported : R → List Instrument → Bool
  exported r [] = true
  exported r (i ∷ is) = registerer.registered r (id_of i.vector) && exported r is

  covered-exported :
      (r : R) (before : String → Bool) (is : List Instrument)
      → ((id : String)
          → registerer.registered r id
            ≡ (before id || contains queue_vectors id || contains reflector_vectors id))
      → covered is ≡ true
      → exported r is ≡ true
  covered-exported r before [] h c = refl
  covered-exported r before (i ∷ is) h c =
      ground (arith, c, h (id_of i.vector), covered-exported r before is h (ground (arith, c)))

  -- One of the vectors is registered.
  absent-not :
      (r : R) (w : Vector) (ws : List Vector)
      → registerer.registered r (id_of w) ≡ true
      → absent registerer r (w ∷ ws) ≡ false
  unfolding absent
  absent-not r w ws h = rw h refl

  -- Both providers are set, what is registered is what was, and the vectors of both, all that their
  -- methods return belongs to a vector that is registered, and another call panics.
  abbrev pub Installs : Installed R → Run (Installed R) → Type 0
  Installs s result =
      (t : Installed R) × (result ≡ ok t)
      × (t.workqueue_provider ≡ some (build_workqueue_metrics_provider []))
      × (t.reflector_provider ≡ some (build_reflector_metrics_provider []))
      × ((id : String)
          → registerer.registered t.default_registerer id ≡ (
              registerer.registered s.default_registerer id
              || contains queue_vectors id
              || contains reflector_vectors id))
      × ((name : String) → exported t.default_registerer (default_instruments name) ≡ true)
      × (install_default registerer t ≡ panic)

  again-panics :
      (s : Installed R)
      → IsRegisterer registerer
      → registerer.registered s.default_registerer "workqueue_depth" ≡ true
      → install_default registerer s ≡ panic
  unfolding install_default install_workqueue queue_collectors build_workqueue_metrics_provider
  again-panics s law h =
      rw (law.refuses s.default_registerer queue_vectors (absent-not s.default_registerer _ _ h))
        refl

  -- `InstallDefault` on a registerer with none of the names of the program's instruments, where no
  -- provider of client-go was set before, sets both providers and registers the instruments of both,
  -- whose names differ, and nothing else; each instrument that a method of a provider returns is of a
  -- vector that is registered; a second call panics. The registerer is as Prometheus documents, with
  -- the name of a vector joined of its subsystem and its name.
  pub install_default-Installs :
      (s : Installed R)
      → IsRegisterer registerer
      → absent registerer s.default_registerer queue_vectors ≡ true
      → absent registerer s.default_registerer reflector_vectors ≡ true
      → s.workqueue_provider ≡ none
      → s.reflector_provider ≡ none
      → Installs s (install_default registerer s)
  unfolding install_default install_workqueue install_reflector
  install_default-Installs s law aq ar wn rn =
      let (r, e, h) = law.registers s.default_registerer queue_vectors aq queue-distinct in
      let (t, f, k) =
        law.registers r reflector_vectors
          (absent-after s.default_registerer r queue_vectors reflector_vectors h ar queue-disjoint)
          reflector-distinct in
      let final : Installed R = record {
        default_registerer = t;
        workqueue_provider = some (build_workqueue_metrics_provider []);
        reflector_provider = some (build_reflector_metrics_provider []);
      } in
      let depth : String = "workqueue_depth" in
      let all : (id : String)
          → registerer.registered t id ≡ (
              registerer.registered s.default_registerer id
              || contains queue_vectors id
              || contains reflector_vectors id) =
        λ id. ground (arith, k id, h id) in
      (
        final,
        rw (e, wn, f, rn) refl,
        refl,
        refl,
        all,
        λ name.
            covered-exported t (registerer.registered s.default_registerer)
              (default_instruments name) all (instruments-covered name),
        again-panics final law (ground (arith, k depth, h depth, queue-contains)),
      )
