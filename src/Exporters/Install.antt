-- ===== src/Exporters/Install.antt =====
-- pkg/kubernetes/metrics/metrics.go: `InstallDefault`.
use k8s_controller_the_hard.Prelude.{Option, none, some, [], Run, ok, blocked, panic, ◌>>=◌}
use k8s_controller_the_hard.Exporters.{Registerer}
use k8s_controller_the_hard.Exporters.QueueProvider.{
  WorkqueueMetricProvider, build_workqueue_metrics_provider, queue_collectors,
}
use k8s_controller_the_hard.Exporters.ReflectorProvider.{
  ReflectorMetricsProvider, build_reflector_metrics_provider, reflector_collectors,
}

-- The default registerer, and the providers that the two packages of client-go were given.
pub record Installed (R : Type 0) : Type 0 where
  pub default_registerer : R
  pub workqueue_provider : Option WorkqueueMetricProvider
  pub reflector_provider : Option ReflectorMetricsProvider

-- `SetProvider` and `SetReflectorMetricsProvider`, of which only the first call has an effect, as
-- client-go documents.
abbrev pub set_once : {P : Type 0} → Option P → P → Option P
set_once none p = some p
set_once (some first) p = some first

module _ {R : Type 0} (registerer : Registerer R) where
  abbrev pub set_workqueue : Installed R → WorkqueueMetricProvider → Run R → Run (Installed R)
  set_workqueue s p (ok r) =
      ok (record s { default_registerer = r; workqueue_provider = set_once s.workqueue_provider p })
  set_workqueue s p (blocked r) = blocked (record s { default_registerer = r })
  set_workqueue s p panic = panic

  abbrev pub set_reflector : Installed R → ReflectorMetricsProvider → Run R → Run (Installed R)
  set_reflector s p (ok r) =
      ok (record s { default_registerer = r; reflector_provider = set_once s.reflector_provider p })
  set_reflector s p (blocked r) = blocked (record s { default_registerer = r })
  set_reflector s p panic = panic

  unfoldable pub install_workqueue : Installed R → Run (Installed R)
  install_workqueue s =
      let p = build_workqueue_metrics_provider [] in
      set_workqueue s p (registerer.must_register s.default_registerer (queue_collectors p))

  unfoldable pub install_reflector : Installed R → Run (Installed R)
  install_reflector s =
      let p = build_reflector_metrics_provider [] in
      set_reflector s p (registerer.must_register s.default_registerer (reflector_collectors p))

  unfoldable pub install_default : Installed R → Run (Installed R)
  install_default s = install_workqueue s >>= install_reflector
