-- ===== src/Exporters/ReflectorProvider.antt =====
-- pkg/kubernetes/metrics/reflector.go
use Prim.Native.String.{String}
use k8s_controller_the_hard.Prelude.{none, List, [], ◌∷◌}
use k8s_controller_the_hard.Exporters.{
  gauge, counter, summary, Vector, Instrument, with_label_values,
}

abbrev reflector_subsystem : String
reflector_subsystem = "reflector"

pub record ReflectorMetricsProvider : Type 0 where
  pub reflector_lists_total : Vector
  pub reflector_lists_duration : Vector
  pub reflector_items_per_list : Vector
  pub reflector_watches_total : Vector
  pub reflector_short_watches_total : Vector
  pub reflector_watch_duration : Vector
  pub reflector_items_per_watch : Vector
  pub reflector_last_resource_version : Vector

-- The vectors, each with the label `name`.
unfoldable pub build_reflector_metrics_provider : List (String × String) → ReflectorMetricsProvider
build_reflector_metrics_provider const_labels = record {
  reflector_lists_total = record {
    opts = record {
      kind = counter;
      subsystem = reflector_subsystem;
      name = "lists_total";
      help = "The number of list API requests that a reflector have done";
      buckets = none;
      const_labels = const_labels;
    };
    label_names = "name" ∷ [];
  };
  reflector_lists_duration = record {
    opts = record {
      kind = summary;
      subsystem = reflector_subsystem;
      name = "list_duration_seconds";
      help = "The amount of time it takes for a reflector to receive and decode listed items";
      buckets = none;
      const_labels = const_labels;
    };
    label_names = "name" ∷ [];
  };
  reflector_items_per_list = record {
    opts = record {
      kind = summary;
      subsystem = reflector_subsystem;
      name = "items_per_list";
      help = "The number of items received by a reflector from a list API request";
      buckets = none;
      const_labels = const_labels;
    };
    label_names = "name" ∷ [];
  };
  reflector_watches_total = record {
    opts = record {
      kind = counter;
      subsystem = reflector_subsystem;
      name = "watches_total";
      help = "The number of API watches that a reflector have done";
      buckets = none;
      const_labels = const_labels;
    };
    label_names = "name" ∷ [];
  };
  reflector_short_watches_total = record {
    opts = record {
      kind = counter;
      subsystem = reflector_subsystem;
      name = "short_watches_total";
      help = "The number of short API watches that a reflector have done";
      buckets = none;
      const_labels = const_labels;
    };
    label_names = "name" ∷ [];
  };
  reflector_watch_duration = record {
    opts = record {
      kind = summary;
      subsystem = reflector_subsystem;
      name = "watch_duration_seconds";
      help = "The amount of time it takes for a reflector to receive and decode watched items";
      buckets = none;
      const_labels = const_labels;
    };
    label_names = "name" ∷ [];
  };
  reflector_items_per_watch = record {
    opts = record {
      kind = summary;
      subsystem = reflector_subsystem;
      name = "items_per_watch";
      help = "The number of items received by a reflector from a watch result";
      buckets = none;
      const_labels = const_labels;
    };
    label_names = "name" ∷ [];
  };
  reflector_last_resource_version = record {
    opts = record {
      kind = gauge;
      subsystem = reflector_subsystem;
      name = "last_resource_version";
      help = "The last resource version observed by a reflector";
      buckets = none;
      const_labels = const_labels;
    };
    label_names = "name" ∷ [];
  };
}

-- What is registered, in this order.
unfoldable pub reflector_collectors : ReflectorMetricsProvider → List Vector
reflector_collectors p =
    p.reflector_lists_total ∷ p.reflector_lists_duration ∷ p.reflector_items_per_list
    ∷ p.reflector_watches_total ∷ p.reflector_short_watches_total ∷ p.reflector_watch_duration
    ∷ p.reflector_items_per_watch ∷ p.reflector_last_resource_version ∷ []

module _ (p : ReflectorMetricsProvider) where
  unfoldable pub new_lists_metric : String → Instrument
  new_lists_metric name = with_label_values p.reflector_lists_total name

  unfoldable pub new_list_duration_metric : String → Instrument
  new_list_duration_metric name = with_label_values p.reflector_lists_duration name

  unfoldable pub new_items_in_list_metric : String → Instrument
  new_items_in_list_metric name = with_label_values p.reflector_items_per_list name

  unfoldable pub new_watches_metric : String → Instrument
  new_watches_metric name = with_label_values p.reflector_watches_total name

  unfoldable pub new_short_watches_metric : String → Instrument
  new_short_watches_metric name = with_label_values p.reflector_short_watches_total name

  unfoldable pub new_watch_duration_metric : String → Instrument
  new_watch_duration_metric name = with_label_values p.reflector_watch_duration name

  unfoldable pub new_items_in_watch_metric : String → Instrument
  new_items_in_watch_metric name = with_label_values p.reflector_items_per_watch name

  unfoldable pub new_last_resource_version_metric : String → Instrument
  new_last_resource_version_metric name = with_label_values p.reflector_last_resource_version name
