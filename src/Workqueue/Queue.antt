-- ===== src/Workqueue/Queue.antt =====
-- pkg/utils/workqueue/playboyqueue.go: the state of the queue and its methods; `now` is what the clock
-- reads in a call. `add`, `get`, `get_fresh`, `done` and `shut_down` run under the lock of `cond`, and
-- `forget` under that of the failures. `add_after` and `add_rate_limited` take several locks one after
-- the other: the functions are for a call that no other comes into, and Parts has the others. Counters
-- and times do not wrap.
pub mod Steps
pub mod Parts
pub mod Placement
pub mod Invariant
pub mod Delivery
pub mod Refinement
pub mod Counters
pub mod Requeue
pub mod Drain
pub mod Panic
use Prim.Native.String.{String}
use k8s_controller_the_hard.Prelude.{
  ℕ, suc, ◌+◌, Bool, true, false, not, ◌&&◌, ◌||◌, Option, none, some, List, [], ◌∷◌, ◌++◌,
  if◌then◌else◌, ltb, leb, ◌==◌, length, Run, ok, blocked, panic,
}
use k8s_controller_the_hard.Prelude.Int.{ℤ, pos}
use k8s_controller_the_hard.Prelude.GoMap
use k8s_controller_the_hard.Prelude.GoMap.{GoMap}
use k8s_controller_the_hard.Workqueue.Set.{Set, has, insert, delete, len}
use k8s_controller_the_hard.Workqueue.Metrics
use k8s_controller_the_hard.Workqueue.Metrics.{Metrics, MetricsProvider}

-- client-go's `workqueue.RateLimiter`, over its own state `S`.
pub record RateLimiter (K S : Type 0) : Type 0 where
  pub when : K → S → ℤ × S
  pub num_requeues : K → S → ℕ
  pub forget : K → S → S

-- A call made on the condition variable.
pub data Notify : Type 0 where
  signal broadcast : Notify

-- An entry on its way to the waiting loop.
pub record WaitFor (K : Type 0) : Type 0 where
  pub item : K
  pub ready_at : ℕ

pub record Queue (K S : Type 0) : Type 0 where
  pub queue_fresh : List K
  pub queue_staled : List K
  pub dirty : Set K
  pub processing : Set K
  pub cond : List Notify  -- newest first
  pub shutting_down : Bool
  pub fresh_threshold : ℕ
  pub stop_ch_closed : Bool
  pub stop_once : Bool
  pub heartbeat_stopped : Bool
  pub waiting_for_add_ch : List (WaitFor K)  -- oldest first
  pub failures : GoMap K ℕ
  pub rate_limiter : S
  pub metrics : Metrics K

-- What an attempt of `Get` or `GetFresh` comes to; `wait` is a call of `cond.Wait`.
pub data Got (K : Type 0) : Type 0 where
  got : K → Got K
  shutdown wait : Got K

-- `make(chan *waitFor, 1000)`
abbrev pub channel_size : ℕ
channel_size = 1000

unfoldable pub new_named_playboy_queue :
    {K S : Type 0} → ℕ → S → String → MetricsProvider → Queue K S
unfolding Metrics.new_metrics
new_named_playboy_queue fresh_threshold rate_limiter name provider = record {
  queue_fresh = [];
  queue_staled = [];
  dirty = [];
  processing = [];
  cond = [];
  shutting_down = false;
  fresh_threshold = fresh_threshold;
  stop_ch_closed = false;
  stop_once = false;
  heartbeat_stopped = false;
  waiting_for_add_ch = [];
  failures = [];
  rate_limiter = rate_limiter;
  metrics = Metrics.new_metrics name provider;
}

module _ {K S : Type 0} where
  unfoldable pub queue_len : Queue K S → ℕ
  queue_len q = length q.queue_fresh + length q.queue_staled

  abbrev pub notify : Notify → Queue K S → Queue K S
  notify n q = record q { cond = n ∷ q.cond }

  -- `append` to one of the two queues
  abbrev pub push : Queue K S → K → Bool → Queue K S
  push q item true = record q { queue_fresh = q.queue_fresh ++ item ∷ [] }
  push q item false = record q { queue_staled = q.queue_staled ++ item ∷ [] }

  unfoldable pub shut_down : Queue K S → Queue K S
  shut_down q = if q.stop_once then q else record q {
    stop_once = true;
    shutting_down = true;
    cond = broadcast ∷ q.cond;
    stop_ch_closed = true;
    heartbeat_stopped = true;
  }

  -- One round of the loop of `ShutDownWithDrain`: true if it went into `cond.Wait`.
  unfoldable pub wait_for_processing : Queue K S → Bool
  unfolding len
  wait_for_processing q = not (leb (len q.processing) 0)

  unfoldable pub update_unfinished_work : ℕ → Queue K S → Queue K S
  update_unfinished_work now q =
      if q.shutting_down
      then q
      else record q { metrics = Metrics.update_unfinished_work now q.metrics }

  -- The `select` of `AddAfter`. Where both cases are ready the runtime picks one.
  unfoldable pub select_send : Bool → Queue K S → WaitFor K → Run (Queue K S)
  select_send pick_stop q entry =
      let room = ltb (length q.waiting_for_add_ch) channel_size in
      if q.stop_ch_closed && (pick_stop || not room)
      then ok q
      else if room
      then ok (record q { waiting_for_add_ch = q.waiting_for_add_ch ++ entry ∷ [] })
      else blocked q

module _ {K S : Type 0} (dec : Discrete K) where
  unfoldable pub add_fresh_or_staled : ℕ → Queue K S → K → Bool → Queue K S
  add_fresh_or_staled now q item fresh =
      if q.shutting_down
      then q
      else if has dec q.dirty item
      then q
      else let q' = record q {
        metrics = Metrics.add dec now q.metrics item;
        dirty = insert dec q.dirty item;
      } in
        if has dec q.processing item then q' else notify signal (push q' item fresh)

  unfoldable pub add : ℕ → Queue K S → K → Queue K S
  unfolding add_fresh_or_staled
  add now q item = add_fresh_or_staled now q item true

  -- The end of `Get` and `GetFresh`.
  abbrev pub hand_out : ℕ → Queue K S → K → Queue K S
  hand_out now q item = record q {
    metrics = Metrics.get dec now q.metrics item;
    processing = insert dec q.processing item;
    dirty = delete dec q.dirty item;
  }

  -- The `switch` of `Get`, on the two queues.
  abbrev pub get_case : ℕ → Queue K S → List K → List K → Queue K S × Got K
  get_case now q (item ∷ rest) staled =
      (hand_out now (record q { queue_fresh = rest }) item, got item)
  get_case now q [] (item ∷ rest) = (hand_out now (record q { queue_staled = rest }) item, got item)
  get_case now q [] [] = (q, shutdown)

  unfoldable pub get : ℕ → Queue K S → Queue K S × Got K
  get now q =
      if length q.queue_fresh + length q.queue_staled == 0 && not q.shutting_down
      then (q, wait)
      else get_case now q q.queue_fresh q.queue_staled

  abbrev pub get_fresh_case : ℕ → Queue K S → List K → Queue K S × Got K
  get_fresh_case now q [] = (q, shutdown)
  get_fresh_case now q (item ∷ rest) =
      (hand_out now (record q { queue_fresh = rest }) item, got item)

  unfoldable pub get_fresh : ℕ → Queue K S → Queue K S × Got K
  get_fresh now q =
      if length q.queue_fresh == 0 && not q.shutting_down
      then (q, wait)
      else get_fresh_case now q q.queue_fresh

  -- `q.failures[item]`
  unfoldable pub failures_of : Queue K S → K → ℕ
  failures_of q item = elim (GoMap.get dec q.failures item) [ none ↦ 0 | some n ↦ n ]

  unfoldable pub is_fresh : Queue K S → K → Bool
  is_fresh q item = leb (failures_of q item) q.fresh_threshold

  -- `AddAfter` past the count of the retry, by the sign of the duration.
  abbrev pub add_delayed : ℕ → Bool → Queue K S → K → ℤ → Run (Queue K S)
  add_delayed now pick_stop q item (pos (suc n)) =
      select_send pick_stop q (record { item = item; ready_at = now + suc n })
  add_delayed now pick_stop q item _ = ok (add_fresh_or_staled now q item (is_fresh q item))

  -- `AddAfter` past the check for a shutdown, with the outcome of `q.metrics.retry()`.
  abbrev pub add_counted : ℕ → Bool → Queue K S → K → ℤ → Option (Metrics K) → Run (Queue K S)
  add_counted now pick_stop q item duration none = panic
  add_counted now pick_stop q item duration (some m) =
      add_delayed now pick_stop (record q { metrics = m }) item duration

  unfoldable pub add_after : ℕ → Bool → Queue K S → K → ℤ → Run (Queue K S)
  add_after now pick_stop q item duration =
      if q.shutting_down
      then ok q
      else add_counted now pick_stop q item duration (Metrics.retry q.metrics)

  module _ (limiter : RateLimiter K S) where
    unfoldable pub num_requeues : Queue K S → K → ℕ
    num_requeues q item = limiter.num_requeues item q.rate_limiter

    unfoldable pub done : ℕ → Queue K S → K → Queue K S
    done now q item =
        let q' = record q {
          metrics = Metrics.done dec now q.metrics item;
          processing = delete dec q.processing item;
        } in
        if has dec q'.dirty item
        then notify signal
            (push q' item (ltb q'.fresh_threshold (limiter.num_requeues item q'.rate_limiter)))
        else q'

    unfoldable pub add_rate_limited : ℕ → Bool → Queue K S → K → Run (Queue K S)
    add_rate_limited now pick_stop q item =
        let q' = record q { failures = GoMap.put dec q.failures item (suc (failures_of q item)) } in
        let (delay, limited) = limiter.when item q'.rate_limiter in
        add_after now pick_stop (record q' { rate_limiter = limited }) item delay

    unfoldable pub forget : Queue K S → K → Queue K S
    forget q item = record q {
      failures = GoMap.remove dec q.failures item;
      rate_limiter = limiter.forget item q.rate_limiter;
    }
