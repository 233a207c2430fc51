-- ===== src/Workqueue/Interface.antt =====
-- pkg/utils/workqueue/playboyqueue.go: the constructors for clients, and the calls about a shutdown.
pub mod Blocked
use Prim.Native.String.{String}
use k8s_controller_the_hard.Prelude.{ℕ, Bool, true, false, if◌then◌else◌, ltb, Run, ok, blocked}
use k8s_controller_the_hard.Workqueue.Metrics.{MetricsProvider}
use k8s_controller_the_hard.Workqueue.Queue.{
  Queue, new_named_playboy_queue, shut_down, wait_for_processing,
}

-- What `NewNamedPlayboyQueue` returns: a queue of client-go of this name, where there are no fresh
-- items to speak of, or a playboy queue.
pub data PlayboyQueue (K S : Type 0) : Type 0 where
  rate_limiting : S → String → PlayboyQueue K S
  playboy : Queue K S → PlayboyQueue K S

module _ {K S : Type 0} where
  unfoldable pub named_queue : ℕ → S → String → MetricsProvider → PlayboyQueue K S
  named_queue fresh_threshold rate_limiter name provider =
      if ltb fresh_threshold 1
      then rate_limiting rate_limiter name
      else playboy (new_named_playboy_queue fresh_threshold rate_limiter name provider)

  -- `NewPlayboyQueue`
  unfoldable pub unnamed_queue : ℕ → S → MetricsProvider → PlayboyQueue K S
  unnamed_queue fresh_threshold rate_limiter provider =
      named_queue fresh_threshold rate_limiter "" provider

  -- `ShuttingDown`
  unfoldable pub shutting_down : Queue K S → Bool
  shutting_down q = q.shutting_down

  -- `ShutDownWithDrain` up to its first `cond.Wait`, or to its return.
  unfoldable pub shut_down_with_drain : Queue K S → Run (Queue K S)
  shut_down_with_drain q =
      let q' = shut_down q in if wait_for_processing q' then blocked q' else ok q'
