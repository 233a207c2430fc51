-- ===== src/Controller/Worker.antt =====
-- pkg/utils/controller/worker.go: one call of `processItemFromQueue`. While `reconcile` runs, other
-- goroutines use the queue too, so `reconcile` takes the queue and returns what it finds afterwards.
-- The `n`-th call of the queue's methods reads the time `clock n`.
pub mod Laws
pub mod Settles
pub mod Stops
use Prim.Native.String.{String}
use k8s_controller_the_hard.Prelude.{
  ℕ, zero, suc, Bool, true, false, ◌||◌, Option, none, some, if◌then◌else◌, Run, ok, blocked, panic,
  ◌>>=◌,
}
use k8s_controller_the_hard.Prelude.Int.{ℤ, pos}
use k8s_controller_the_hard.Workqueue.Queue
use k8s_controller_the_hard.Workqueue.Queue.{Queue, RateLimiter, Got, got, shutdown, wait}

-- client-go's `workqueue.RateLimitingInterface`, the part that the package calls.
pub record RateLimitingInterface (K Q : Type 0) : Type 0 where
  pub get : ℕ → Q → Q × Got K
  pub done : ℕ → Q → K → Q
  pub add : ℕ → Q → K → Q
  pub add_after : ℕ → Q → K → ℤ → Run Q
  pub add_rate_limited : ℕ → Q → K → Run Q
  pub forget : Q → K → Q

-- The struct of controller.go.
pub record Result : Type 0 where
  pub requeue : Bool
  pub requeue_after : ℤ

-- What `reconcile` returns: an error, or a result.
pub data Outcome : Type 0 where
  failed : Outcome
  succeeded : Result → Outcome

-- `result.RequeueAfter > 0`
abbrev pub is_positive : ℤ → Bool
is_positive (pos (suc n)) = true
is_positive _ = false

module _ {K Q : Type 0} (iface : RateLimitingInterface K Q) (clock : ℕ → ℕ) where
  -- The branches on the outcome.
  unfoldable pub handle_outcome : Q → K → Outcome → Run Q
  handle_outcome q item failed = iface.add_rate_limited (clock 1) q item
  handle_outcome q item (succeeded result) =
      let forgotten = iface.forget q item in
      if result.requeue || is_positive result.requeue_after
      then (if is_positive result.requeue_after
          then iface.add_after (clock 1) forgotten item result.requeue_after
          else ok forgotten)
        >>= (λ r. ok (iface.add (clock 2) r item))
      else ok forgotten

  -- The deferred `queue.Done(item)`, and `return true`. After a panic it does not matter.
  abbrev pub return_true : K → Run Q → Run (Q × Bool)
  return_true item (ok q) = ok (iface.done (clock 3) q item, true)
  return_true item (blocked q) = blocked (q, true)
  return_true item panic = panic

  module _ (as_string : K → Option String) (reconcile : String → Q → Q × Outcome) where
    -- Past the assertion `item.(string)`.
    abbrev pub process_string : Q → K → Option String → Run (Q × Bool)
    process_string q item none = panic
    process_string q item (some key) =
        let (after, outcome) = reconcile key q in
        return_true item (handle_outcome after item outcome)

    -- Past the call of `Get`.
    abbrev pub process_got : Q × Got K → Run (Q × Bool)
    process_got (q, shutdown) = ok (q, false)
    process_got (q, wait) = blocked (q, false)
    process_got (q, got item) = process_string q item (as_string item)

    unfoldable pub process_item_from_queue : Q → Run (Q × Bool)
    process_item_from_queue q = process_got (iface.get (clock 0) q)

-- How the loop of one goroutine of `Run` ends; `running` is when the fuel is used up.
pub data Loop (Q : Type 0) : Type 0 where
  stopped running stuck : Q → Loop Q
  crashed : Loop Q

module _ {K Q : Type 0} (iface : RateLimitingInterface K Q) (clock : ℕ → ℕ)
    (as_string : K → Option String) (reconcile : String → Q → Q × Outcome) where
  -- What follows a round.
  abbrev pub loop_on : Run (Q × Bool) → (Q → Loop Q) → Loop Q
  loop_on (ok (q, true)) next = next q
  loop_on (ok (q, false)) next = stopped q
  loop_on (blocked (q, _)) next = stuck q
  loop_on panic next = crashed

  -- `NonSlidingUntil` in a goroutine of `Run`, a unit of fuel for each round.
  unfoldable pub worker_loop : ℕ → Q → Loop Q
  worker_loop zero q = running q
  worker_loop (suc fuel) q =
      loop_on (process_item_from_queue iface clock as_string reconcile q) (λ r. worker_loop fuel r)

-- The playboy queue as such a queue, and what its `FreshOnlyInterface` returns. The Boolean is the
-- choice of the `select` in `AddAfter`.
module _ {K S : Type 0} (dec : Discrete K) (limiter : RateLimiter K S) (pick_stop : Bool) where
  abbrev pub playboy_interface : RateLimitingInterface K (Queue K S)
  playboy_interface = record {
    get = Queue.get dec;
    done = Queue.done dec limiter;
    add = Queue.add dec;
    add_after = λ now q item d. Queue.add_after dec now pick_stop q item d;
    add_rate_limited = λ now q item. Queue.add_rate_limited dec limiter now pick_stop q item;
    forget = Queue.forget dec limiter;
  }

  abbrev pub fresh_only_interface : RateLimitingInterface K (Queue K S)
  fresh_only_interface = record playboy_interface { get = Queue.get_fresh dec }

  -- The queue of the fresh worker, and of the staled worker, in `Run` of playboytype.go.
  abbrev pub interface_of : Bool → RateLimitingInterface K (Queue K S)
  interface_of true = fresh_only_interface
  interface_of false = playboy_interface
