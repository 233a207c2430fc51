-- ===== src/Exporters/QueueProvider.antt =====
-- pkg/kubernetes/metrics/workqueue.go
use Prim.Native.String.{String}
use k8s_controller_the_hard.Prelude.{none, some, List, [], ◌∷◌}
use k8s_controller_the_hard.Exporters.{
  gauge, counter, histogram, Vector, Instrument, with_label_values,
}

abbrev work_queue_subsystem : String
work_queue_subsystem = "workqueue"

pub record WorkqueueMetricProvider : Type 0 where
  pub workqueue_depth : Vector
  pub workqueue_adds : Vector
  pub workqueue_queue_duration : Vector
  pub workqueue_work_duration : Vector
  pub workqueue_unfinished : Vector
  pub workqueue_longest_run : Vector
  pub workqueue_retries : Vector

-- The vectors, each with the label `name`.
unfoldable pub build_workqueue_metrics_provider : List (String × String) → WorkqueueMetricProvider
build_workqueue_metrics_provider const_labels = record {
  workqueue_depth = record {
    opts = record {
      kind = gauge;
      subsystem = work_queue_subsystem;
      name = "depth";
      help = "Current depth of a workqueue";
      buckets = none;
      const_labels = const_labels;
    };
    label_names = "name" ∷ [];
  };
  workqueue_adds = record {
    opts = record {
      kind = counter;
      subsystem = work_queue_subsystem;
      name = "adds_total";
      help = "Total number of events added to a workqueue for the first time";
      buckets = none;
      const_labels = const_labels;
    };
    label_names = "name" ∷ [];
  };
  workqueue_queue_duration = record {
    opts = record {
      kind = histogram;
      subsystem = work_queue_subsystem;
      name = "queue_latency_seconds";
      help = "How long in seconds an item stays in a workqueue before being requested";
      buckets = some (10, 10, 10);
      const_labels = const_labels;
    };
    label_names = "name" ∷ [];
  };
  workqueue_work_duration = record {
    opts = record {
      kind = histogram;
      subsystem = work_queue_subsystem;
      name = "work_duration_seconds";
      help = "How long in seconds processing an item from a workqueue takes.";
      buckets = some (10, 10, 10);
      const_labels = const_labels;
    };
    label_names = "name" ∷ [];
  };
  workqueue_unfinished = record {
    opts = record {
      kind = gauge;
      subsystem = work_queue_subsystem;
      name = "unfinished_work_seconds";
      help =
          "How many seconds of work has been done that is in progress and hasn't been observed by work_duration";
      buckets = none;
      const_labels = const_labels;
    };
    label_names = "name" ∷ [];
  };
  workqueue_longest_run = record {
    opts = record {
      kind = gauge;
      subsystem = work_queue_subsystem;
      name = "longest_running_processor_seconds";
      help = "How many seconds has the longest running processor for a workqueue been running.";
      buckets = none;
      const_labels = const_labels;
    };
    label_names = "name" ∷ [];
  };
  workqueue_retries = record {
    opts = record {
      kind = counter;
      subsystem = work_queue_subsystem;
      name = "retries_total";
      help = "Total number of events added to a workqueue due to retry";
      buckets = none;
      const_labels = const_labels;
    };
    label_names = "name" ∷ [];
  };
}

-- What is registered, in this order.
unfoldable pub queue_collectors : WorkqueueMetricProvider → List Vector
queue_collectors p =
    p.workqueue_depth ∷ p.workqueue_adds ∷ p.workqueue_queue_duration ∷ p.workqueue_work_duration
    ∷ p.workqueue_unfinished ∷ p.workqueue_longest_run ∷ p.workqueue_retries ∷ []

module _ (p : WorkqueueMetricProvider) where
  unfoldable pub new_depth_metric : String → Instrument
  new_depth_metric name = with_label_values p.workqueue_depth name

  unfoldable pub new_adds_metric : String → Instrument
  new_adds_metric name = with_label_values p.workqueue_adds name

  unfoldable pub new_latency_metric : String → Instrument
  new_latency_metric name = with_label_values p.workqueue_queue_duration name

  unfoldable pub new_work_duration_metric : String → Instrument
  new_work_duration_metric name = with_label_values p.workqueue_work_duration name

  unfoldable pub new_unfinished_work_seconds_metric : String → Instrument
  new_unfinished_work_seconds_metric name = with_label_values p.workqueue_unfinished name

  unfoldable pub new_longest_running_processor_seconds_metric : String → Instrument
  new_longest_running_processor_seconds_metric name = with_label_values p.workqueue_longest_run name

  unfoldable pub new_retries_metric : String → Instrument
  new_retries_metric name = with_label_values p.workqueue_retries name
