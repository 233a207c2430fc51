-- ===== src/Workqueue/Queue/Parts.antt =====
-- pkg/utils/workqueue/playboyqueue.go: `AddAfter` and `AddRateLimited` in parts. They take and release
-- the lock of `cond` and that of the failures several times, and other goroutines come in between.
use Prim.Native.String.{String}
use k8s_controller_the_hard.Prelude.{
  ℕ, suc, zero, ◌+◌, ◌≡◌, refl, ◌⊎◌, inl, inr, Bool, false, Option, none, some, Run, ok, blocked,
  panic, ◌>>=◌, arith,
}
use k8s_controller_the_hard.Prelude.Int.{ℤ, pos, negsuc}
use k8s_controller_the_hard.Prelude.GoMap
use k8s_controller_the_hard.Workqueue.Metrics
use k8s_controller_the_hard.Workqueue.Metrics.{MetricsProvider}
use k8s_controller_the_hard.Workqueue.Queue.{
  Queue, RateLimiter, WaitFor, new_named_playboy_queue, add_fresh_or_staled, failures_of, is_fresh,
  select_send, add_counted, add_after,
}
use k8s_controller_the_hard.Workqueue.Queue.Steps.{Call, step, Allowed, Ensures, start}
use k8s_controller_the_hard.Workqueue.Queue.Invariant.{
  IsValid, add-IsValid, retag-IsValid, select_send-IsValid, step-IsValid, Reach-IsValid,
}

-- A call as a whole; or, of the two methods, `q.failures[item]++`, `When`, `retry`, the `select` with
-- its entry, and the `add` with what `isFresh` said before.
pub data Part (K : Type 0) : Type 0 where
  whole : Call K → Part K
  counts_failure asks_limiter : K → Part K
  counts_retry : Part K
  sends : Bool → WaitFor K → Part K
  adds_judged : Bool → K → Part K

module _ {K S : Type 0} where
  -- The call of `retry`, which panics on a nil counter.
  abbrev pub with_metrics : Queue K S → Option (Metrics.Metrics K) → Run (Queue K S)
  with_metrics q none = panic
  with_metrics q (some m) = ok (record q { metrics = m })

module _ {K S : Type 0} (dec : Discrete K) (limiter : RateLimiter K S) where
  unfoldable pub part : ℕ → Queue K S → Part K → Run (Queue K S)
  part now q (whole c) = step dec limiter now q c
  part now q (counts_failure item) =
      ok (record q { failures = GoMap.put dec q.failures item (suc (failures_of dec q item)) })
  part now q (asks_limiter item) =
      ok (record q { rate_limiter = (limiter.when item q.rate_limiter).1 })
  part now q counts_retry = with_metrics q (Metrics.retry q.metrics)
  part now q (sends pick entry) = select_send pick q entry
  part now q (adds_judged fresh item) = ok (add_fresh_or_staled dec now q item fresh)

  -- `AddAfter` with no other call between its parts, by the sign of the duration.
  abbrev pub delayed_parts : ℕ → Bool → K → ℤ → Queue K S → Run (Queue K S)
  delayed_parts now pick item (pos (suc n)) q =
      part now q (sends pick (record { item = item; ready_at = now + suc n }))
  delayed_parts now pick item d q = part now q (adds_judged (is_fresh dec q item) item)

  abbrev pub AllowedPart : Queue K S → Part K → Type 0
  AllowedPart q (whole c) = Allowed dec limiter q c
  AllowedPart q _ = Unit {0}

  -- The states of a queue that starts with threshold `n` and limiter state `s`, with whole calls and
  -- parts in any order.
  pub data Mixes (n : ℕ) (s : S) (name : String) (provider : MetricsProvider)
      : Queue K S → Type 0 where
    begins : Mixes n s name provider (new_named_playboy_queue n s name provider)
    goes :
        {q r : Queue K S} (now : ℕ) (p : Part K)
        → Mixes n s name provider q
        → AllowedPart q p
        → (part now q p ≡ ok r) ⊎ (part now q p ≡ blocked r)
        → Mixes n s name provider r

  counted_parts :
      (now : ℕ) (pick : Bool) (q : Queue K S) (item : K) (d : ℤ) (m : Option (Metrics.Metrics K))
      → add_counted dec now pick q item d m ≡ (with_metrics q m >>= delayed_parts now pick item d)
  unfolding part
  counted_parts now pick q item d none = refl
  counted_parts now pick q item (pos (suc n)) (some m) = refl
  counted_parts now pick q item (pos zero) (some m) = refl
  counted_parts now pick q item (negsuc n) (some m) = refl

  with_metrics-IsValid :
      (q : Queue K S) (m : Option (Metrics.Metrics K))
      → IsValid dec q
      → Ensures (IsValid dec) (with_metrics q m)
  with_metrics-IsValid q none v = tt
  with_metrics-IsValid q (some m) v = retag-IsValid dec q m q.failures q.rate_limiter v

  part-IsValid :
      (now : ℕ) (q : Queue K S) (p : Part K)
      → IsValid dec q
      → AllowedPart q p
      → Ensures (IsValid dec) (part now q p)
  unfolding part
  part-IsValid now q (whole c) v a = step-IsValid dec limiter now q c v a
  part-IsValid now q (counts_failure item) v a = retag-IsValid dec q q.metrics _ q.rate_limiter v
  part-IsValid now q (asks_limiter item) v a = retag-IsValid dec q q.metrics q.failures _ v
  part-IsValid now q counts_retry v a = with_metrics-IsValid q (Metrics.retry q.metrics) v
  part-IsValid now q (sends pick entry) v a = select_send-IsValid dec pick q entry v
  part-IsValid now q (adds_judged fresh item) v a = add-IsValid dec now q item fresh v

  -- Where there is no shutdown, `AddAfter` with no other call between its parts is `retry`, and then
  -- the `select` for a positive duration and the `add` for one that is not.
  pub add_after-parts :
      (now : ℕ) (pick : Bool) (q : Queue K S) (item : K) (d : ℤ)
      → q.shutting_down ≡ false
      → add_after dec now pick q item d
        ≡ (part now q counts_retry >>= delayed_parts now pick item d)
  unfolding part add_after
  add_after-parts now pick q item d up =
      ground (arith, counted_parts now pick q item d (Metrics.retry q.metrics))

  -- In every state of a queue that whole calls and the parts of `AddAfter` and `AddRateLimited` lead
  -- to, in any order, also with a shutdown or calls of other goroutines between the parts, each item
  -- stands in the two queues once if it is requested and not in process, and else not at all; the
  -- flags of the shutdown agree, and the channel has at most its size. `Done` is called for items in
  -- process only.
  pub Mixes-IsValid :
      {n : ℕ} {s : S} {name : String} {provider : MetricsProvider} {q : Queue K S}
      → Mixes n s name provider q
      → IsValid dec q
  Mixes-IsValid begins = Reach-IsValid dec limiter start
  Mixes-IsValid (goes {q} now p m a (inl e)) = rw e at (part-IsValid now q p (Mixes-IsValid m) a)
  Mixes-IsValid (goes {q} now p m a (inr e)) = rw e at (part-IsValid now q p (Mixes-IsValid m) a)
