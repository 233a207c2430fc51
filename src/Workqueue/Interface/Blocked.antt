-- ===== src/Workqueue/Interface/Blocked.antt =====
-- pkg/utils/workqueue/playboyqueue.go: a drain that is never woken.
use Prim.Native.String.{String}
use k8s_controller_the_hard.Prelude.{
  ℕ, ◌≡◌, refl, inl, true, false, arith, blocked, leb, [], ◌∷◌, List,
}
use k8s_controller_the_hard.Workqueue.Metrics.{MetricsProvider}
use k8s_controller_the_hard.Workqueue.Set.{has, len}
use k8s_controller_the_hard.Workqueue.Queue.Steps.{Reach, later, shuts_down, step, Later}
use k8s_controller_the_hard.Workqueue.Queue.Drain.{drain_never_notified}
use k8s_controller_the_hard.Workqueue.Queue.Invariant.{Reach-IsValid}
use k8s_controller_the_hard.Workqueue.Queue.{Queue, RateLimiter, shut_down, wait_for_processing}
use k8s_controller_the_hard.Workqueue.Interface.{shutting_down, shut_down_with_drain}

module _ {K S : Type 0} (dec : Discrete K) (limiter : RateLimiter K S) where
  some-len : (s : List K) (x : K) → has dec s x ≡ true → leb (len s) 0 ≡ false
  unfolding has len
  some-len [] x h = cc
  some-len (y ∷ s) x h = ground arith

  shut_down-dirty : (q : Queue K S) → (shut_down q).dirty ≡ q.dirty
  unfolding shut_down
  shut_down-dirty q = ground arith

  shut_down-processing : (q : Queue K S) → (shut_down q).processing ≡ q.processing
  unfolding shut_down
  shut_down-processing q = ground arith

  shut_down-shutting_down :
      (q : Queue K S) → q.stop_once ≡ q.shutting_down → shutting_down (shut_down q) ≡ true
  unfolding shut_down shutting_down
  shut_down-shutting_down q h = ground (arith, h)

  drain-waits :
      (q : Queue K S) (x : K)
      → has dec q.processing x ≡ true
      → shut_down_with_drain q ≡ blocked (shut_down q)
  unfolding shut_down_with_drain wait_for_processing
  drain-waits q x h = ground (arith, some-len (shut_down q).processing x, shut_down-processing q, h)

  -- `ShutDownWithDrain` on a reachable queue with an item in process and none requested waits on the
  -- condition variable, with the queue shut down, and is notified in no sequence of later calls, also
  -- not by the calls of `Done` for all items in process.
  pub drain-blocked :
      {n : ℕ} {s : S} {name : String} {provider : MetricsProvider} {q r : Queue K S} (x : K)
      → Reach dec limiter n s name provider q
      → has dec q.processing x ≡ true
      → ((y : K) → has dec q.dirty y ≡ false)
      → Later dec limiter (shut_down q) r
      → (shut_down_with_drain q ≡ blocked (shut_down q))
        × (shutting_down (shut_down q) ≡ true)
        × (r.cond ≡ (shut_down q).cond)
  unfolding step shutting_down
  drain-blocked {q} x reach busy none_requested l =
      let down = shut_down-shutting_down q (Reach-IsValid dec limiter reach).stopped.once in
      (
        drain-waits q x busy,
        down,
        drain_never_notified dec limiter (later 0 shuts_down reach tt (inl refl)) down
            (λ y. rw (shut_down-dirty q) (none_requested y)) l,
      )
