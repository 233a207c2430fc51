-- ===== src/Workqueue/Queue/Requeue.antt =====
-- pkg/utils/workqueue/playboyqueue.go: the queue that a retried item goes to.
use Prim.Native.String.{String}
use k8s_controller_the_hard.Prelude.{
  ℕ, ◌≡◌, not, Bool, true, false, arith, if◌then◌else◌, ltb, leb, [], ◌∷◌, ◌++◌,
}
use k8s_controller_the_hard.Workqueue.Metrics.{MetricsProvider}
use k8s_controller_the_hard.Workqueue.Set.{has}
use k8s_controller_the_hard.Workqueue.Queue.Steps.{Reach}
use k8s_controller_the_hard.Workqueue.Queue.Counters.{CountsRequeues, Reach-Agrees}
use k8s_controller_the_hard.Workqueue.Queue.{
  Queue, RateLimiter, add_fresh_or_staled, is_fresh, failures_of, done,
}

module _ {K S : Type 0} where
  -- `r` has `item` at the end of the fresh queue of `q`, or at the end of its staled queue.
  abbrev pub Appended : Bool → Queue K S → K → Queue K S → Type 0
  Appended fresh q item r =
      (r.queue_fresh ≡ (if fresh then q.queue_fresh ++ item ∷ [] else q.queue_fresh))
      × (r.queue_staled ≡ (if fresh then q.queue_staled else q.queue_staled ++ item ∷ []))

module _ {K S : Type 0} (dec : Discrete K) where
  -- The waiting loop and `AddAfter` without a delay put an item that is neither requested nor in
  -- process at the end of the fresh queue if its failures are at most the threshold, and at the end
  -- of the staled queue if they are more; the other queue stays as it was.
  pub add_ready-Appended :
      (now : ℕ) (q : Queue K S) (item : K)
      → q.shutting_down ≡ false
      → has dec q.dirty item ≡ false
      → has dec q.processing item ≡ false
      → Appended
          (leb (failures_of dec q item) q.fresh_threshold)
          q
          item
          (add_fresh_or_staled dec now q item (is_fresh dec q item))
  unfolding add_fresh_or_staled is_fresh
  add_ready-Appended now q item up idle free = ground arith

module _ {K S : Type 0} (dec : Discrete K) (limiter : RateLimiter K S) where
  done-Appended :
      (now : ℕ) (q : Queue K S) (item : K)
      → has dec q.dirty item ≡ true
      → Appended
          (ltb q.fresh_threshold (limiter.num_requeues item q.rate_limiter))
          q
          item
          (done dec limiter now q item)
  unfolding done
  done-Appended now q item d = ground arith

  -- `Done` chooses the other queue than `isFresh`: in a state that calls which do not overlap lead to,
  -- an item that was requested
  -- again while in process goes to the end of the staled queue if its failures are at most the
  -- threshold, and to the end of the fresh queue if they are more. The limiter is one that counts as
  -- client-go documents, from 0.
  pub done_inverts :
      {n : ℕ} {s : S} {name : String} {provider : MetricsProvider} {q : Queue K S}
      → CountsRequeues dec limiter
      → ((x : K) → limiter.num_requeues x s ≡ 0)
      → Reach dec limiter n s name provider q
      → (now : ℕ) (item : K) → has dec q.dirty item ≡ true
      → Appended (not (is_fresh dec q item)) q item (done dec limiter now q item)
  unfolding is_fresh
  done_inverts {q} laws zeros r now item d =
      let a = (Reach-Agrees dec limiter laws zeros r).at item in
      ground (arith, a, done-Appended now q item d)
