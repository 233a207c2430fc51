-- ===== src/Workqueue/Metrics.antt =====
-- pkg/utils/workqueue/metrics.go. A call of `clock.Now()` is the argument `now`, in nanoseconds; an
-- observation is the list of its values in nanoseconds, newest first, before `Seconds()`.
use Prim.Native.String.{String}
use k8s_controller_the_hard.Prelude.{
  ℕ, suc, ◌+◌, Bool, true, false, ◌||◌, Option, none, some, List, [], ◌∷◌, if◌then◌else◌,
}
use k8s_controller_the_hard.Prelude.Int.{ℤ, pos, ◌+ℤ◌, ◌-ℤ◌, sub_ℕ, ltb_ℤ}
use k8s_controller_the_hard.Prelude.GoMap
use k8s_controller_the_hard.Prelude.GoMap.{GoMap}

-- What `metricProvider` holds: a pointer to the no-op provider, the no-op provider itself, or one
-- from outside the package.
pub data MetricsProvider : Type 0 where
  noop_pointer noop_value : MetricsProvider
  external : ℕ → MetricsProvider

-- The package variables `metricProvider` and `metricProviderSetOnce`.
pub record ProviderState : Type 0 where
  pub metric_provider : MetricsProvider
  pub set_once : Bool

unfoldable pub initial_provider : ProviderState
initial_provider = record { metric_provider = noop_pointer; set_once = false }

unfoldable pub set_provider : ProviderState → MetricsProvider → ProviderState
set_provider s provider =
    if s.set_once then s else record { metric_provider = provider; set_once = true }

-- `metricProvider == (noopMetricsProvider{})`: interface values of two types are not equal.
unfoldable pub is_noop_value : MetricsProvider → Bool
is_noop_value noop_value = true
is_noop_value noop_pointer = false
is_noop_value (external _) = false

-- `len(name) == 0`
unfoldable pub is_empty : String → Bool
is_empty String.[] = true
is_empty (String.◌∷◌ _ _) = false

pub record DefaultMetrics (K : Type 0) : Type 0 where
  pub depth : ℤ
  pub adds : ℕ
  pub latency : List ℤ
  pub work_duration : List ℤ
  pub add_times : GoMap K ℕ
  pub processing_start_times : GoMap K ℕ
  pub unfinished_work_seconds : ℤ
  pub longest_running_processor : ℤ
  pub retries : Option ℕ  -- `none` is the nil interface

-- The implementations of `metrics`.
pub data Metrics (K : Type 0) : Type 0 where
  no_metrics : Metrics K
  default_metrics : DefaultMetrics K → Metrics K

-- The literal sets no `retries`.
unfoldable pub new_metrics : {K : Type 0} → String → MetricsProvider → Metrics K
unfolding is_empty is_noop_value
new_metrics name provider =
    if is_empty name || is_noop_value provider
    then no_metrics
    else default_metrics (record {
      depth = pos 0;
      adds = 0;
      latency = [];
      work_duration = [];
      add_times = [];
      processing_start_times = [];
      unfinished_work_seconds = pos 0;
      longest_running_processor = pos 0;
      retries = none;
    })

-- The loop of `updateUnfinishedWork`: the sum of the ages and the greatest of them.
unfoldable pub sum_ages : {K : Type 0} → ℕ → GoMap K ℕ → ℤ × ℤ → ℤ × ℤ
sum_ages now [] acc = acc
sum_ages now ((_, t) ∷ m) (total, oldest) =
    let age = sub_ℕ now t in sum_ages now m (total +ℤ age, if ltb_ℤ oldest age then age else oldest)

module _ {K : Type 0} where
  unfoldable pub default_update_unfinished_work : ℕ → DefaultMetrics K → DefaultMetrics K
  unfolding sum_ages
  default_update_unfinished_work now m =
      let (total, oldest) = sum_ages now m.processing_start_times (pos 0, pos 0) in
      record m { unfinished_work_seconds = total; longest_running_processor = oldest }

  -- `m.retries.Inc()` on a nil interface panics: `none`.
  pub inc_retries : DefaultMetrics K → Option ℕ → Option (DefaultMetrics K)
  inc_retries m none = none
  inc_retries m (some n) = some (record m { retries = some (suc n) })

  unfoldable pub default_retry : DefaultMetrics K → Option (DefaultMetrics K)
  unfolding inc_retries
  default_retry m = inc_retries m m.retries

  unfoldable pub update_unfinished_work : ℕ → Metrics K → Metrics K
  update_unfinished_work now no_metrics = no_metrics
  update_unfinished_work now (default_metrics m) =
      default_metrics (default_update_unfinished_work now m)

  unfoldable pub retry : Metrics K → Option (Metrics K)
  retry no_metrics = some no_metrics
  retry (default_metrics m) = elim (default_retry m) [
    | none ↦ none
    | some m' ↦ some (default_metrics m')
  ]

module _ {K : Type 0} (dec : Discrete K) where
  pub note_add : ℕ → GoMap K ℕ → K → Option ℕ → GoMap K ℕ
  note_add now times item none = GoMap.put dec times item now
  note_add now times item (some _) = times

  unfoldable pub default_add : ℕ → DefaultMetrics K → K → DefaultMetrics K
  unfolding note_add
  default_add now m item = record m {
    adds = m.adds + 1;
    depth = m.depth +ℤ pos 1;
    add_times = note_add now m.add_times item (GoMap.get dec m.add_times item);
  }

  pub observe_latency : ℕ → DefaultMetrics K → K → Option ℕ → DefaultMetrics K
  observe_latency now m item none = m
  observe_latency now m item (some start) = record m {
    latency = sub_ℕ now start ∷ m.latency;
    add_times = GoMap.remove dec m.add_times item;
  }

  unfoldable pub default_get : ℕ → DefaultMetrics K → K → DefaultMetrics K
  unfolding observe_latency
  default_get now m item =
      let m' = record m {
        depth = m.depth -ℤ pos 1;
        processing_start_times = GoMap.put dec m.processing_start_times item now;
      } in
      observe_latency now m' item (GoMap.get dec m'.add_times item)

  pub observe_work : ℕ → DefaultMetrics K → K → Option ℕ → DefaultMetrics K
  observe_work now m item none = m
  observe_work now m item (some start) = record m {
    work_duration = sub_ℕ now start ∷ m.work_duration;
    processing_start_times = GoMap.remove dec m.processing_start_times item;
  }

  unfoldable pub default_done : ℕ → DefaultMetrics K → K → DefaultMetrics K
  unfolding observe_work
  default_done now m item = observe_work now m item (GoMap.get dec m.processing_start_times item)

  -- The calls through the interface.
  unfoldable pub add : ℕ → Metrics K → K → Metrics K
  add now no_metrics item = no_metrics
  add now (default_metrics m) item = default_metrics (default_add now m item)

  unfoldable pub get : ℕ → Metrics K → K → Metrics K
  get now no_metrics item = no_metrics
  get now (default_metrics m) item = default_metrics (default_get now m item)

  unfoldable pub done : ℕ → Metrics K → K → Metrics K
  done now no_metrics item = no_metrics
  done now (default_metrics m) item = default_metrics (default_done now m item)
