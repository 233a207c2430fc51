-- ===== src/Exporters/Names.antt =====
-- pkg/kubernetes/metrics: the names of the instruments.
use Prim.Native.String.{String}
use k8s_controller_the_hard.Prelude.{◌≡◌, refl, Bool, true, not, ◌&&◌, ◌||◌, List, [], ◌∷◌}
use k8s_controller_the_hard.Exporters.{
  Vector, Instrument, with_label_values, id_of, contains, distinct,
}
use k8s_controller_the_hard.Exporters.QueueProvider.{
  WorkqueueMetricProvider, new_depth_metric, new_adds_metric, new_latency_metric,
  new_work_duration_metric, new_unfinished_work_seconds_metric,
  new_longest_running_processor_seconds_metric, new_retries_metric,
  build_workqueue_metrics_provider, queue_collectors,
}
use k8s_controller_the_hard.Exporters.ReflectorProvider.{
  ReflectorMetricsProvider, new_lists_metric, new_list_duration_metric, new_items_in_list_metric,
  new_watches_metric, new_short_watches_metric, new_watch_duration_metric,
  new_items_in_watch_metric, new_last_resource_version_metric, build_reflector_metrics_provider,
  reflector_collectors,
}

abbrev pub queue_vectors : List Vector
queue_vectors = queue_collectors (build_workqueue_metrics_provider [])

abbrev pub reflector_vectors : List Vector
reflector_vectors = reflector_collectors (build_reflector_metrics_provider [])

-- No vector of the one list has the name of one of the other.
abbrev pub disjoint : List Vector → List Vector → Bool
disjoint vs [] = true
disjoint vs (w ∷ ws) = not (contains vs (id_of w)) && disjoint vs ws

pub queue-distinct : distinct queue_vectors ≡ true
unfolding distinct contains queue_collectors build_workqueue_metrics_provider
queue-distinct = refl

pub reflector-distinct : distinct reflector_vectors ≡ true
unfolding distinct contains reflector_collectors build_reflector_metrics_provider
reflector-distinct = refl

pub queue-disjoint : disjoint queue_vectors reflector_vectors ≡ true
unfolding contains queue_collectors build_workqueue_metrics_provider reflector_collectors
    build_reflector_metrics_provider
queue-disjoint = refl

pub queue-contains : contains queue_vectors "workqueue_depth" ≡ true
unfolding contains queue_collectors build_workqueue_metrics_provider
queue-contains = refl

-- What the methods of the two providers return for a name.
abbrev pub instruments :
    WorkqueueMetricProvider → ReflectorMetricsProvider → String → List Instrument
instruments p q name =
    new_depth_metric p name
    ∷ new_adds_metric p name
    ∷ new_latency_metric p name
    ∷ new_work_duration_metric p name
    ∷ new_unfinished_work_seconds_metric p name
    ∷ new_longest_running_processor_seconds_metric p name
    ∷ new_retries_metric p name
    ∷ new_lists_metric q name
    ∷ new_list_duration_metric q name
    ∷ new_items_in_list_metric q name
    ∷ new_watches_metric q name
    ∷ new_short_watches_metric q name
    ∷ new_watch_duration_metric q name
    ∷ new_items_in_watch_metric q name
    ∷ new_last_resource_version_metric q name
    ∷ []

abbrev pub default_instruments : String → List Instrument
default_instruments name =
    instruments (build_workqueue_metrics_provider []) (build_reflector_metrics_provider []) name

abbrev pub covered : List Instrument → Bool
covered [] = true
covered (i ∷ is) =
    (contains queue_vectors (id_of i.vector) || contains reflector_vectors (id_of i.vector))
    && covered is

pub instruments-covered : (name : String) → covered (default_instruments name) ≡ true
unfolding contains queue_collectors build_workqueue_metrics_provider reflector_collectors
    build_reflector_metrics_provider with_label_values new_depth_metric new_adds_metric
    new_latency_metric new_work_duration_metric new_unfinished_work_seconds_metric
    new_longest_running_processor_seconds_metric new_retries_metric new_lists_metric
    new_list_duration_metric new_items_in_list_metric new_watches_metric new_short_watches_metric
    new_watch_duration_metric new_items_in_watch_metric new_last_resource_version_metric
instruments-covered name = refl
