-- ===== src/Workqueue/Queue/Counters.antt =====
-- pkg/utils/workqueue/playboyqueue.go: the retry counters of the queue and of the rate limiter.
use Prim.Native.String.{String}
use k8s_controller_the_hard.Prelude.{
  ℕ, zero, suc, ◌≡◌, refl, sym, ite, inl, inr, Bool, true, arith, Option, none, some, Run, ok,
  blocked, panic,
}
use k8s_controller_the_hard.Prelude.Int.{ℤ, pos, negsuc}
use k8s_controller_the_hard.Prelude.GoMap
use k8s_controller_the_hard.Workqueue.Metrics
use k8s_controller_the_hard.Workqueue.Metrics.{MetricsProvider}
use k8s_controller_the_hard.Workqueue.Queue.Steps.{
  Call, adds, adds_ready, dones, forgets, gets, gets_fresh, shuts_down, updates, receives,
  adds_after, adds_rate_limited, Ensures, Ensures-if, step, Reach, start, later,
}
use k8s_controller_the_hard.Workqueue.Queue.{
  Queue, RateLimiter, WaitFor, new_named_playboy_queue, shut_down, select_send, add_fresh_or_staled,
  add, get, get_fresh, failures_of, add_counted, add_after, done, add_rate_limited, forget,
  update_unfinished_work,
}

module _ {K S : Type 0} (dec : Discrete K) where
  -- What client-go documents of a limiter by item: `When` counts one more request of the item, and
  -- `Forget` sets its count back.
  pub record CountsRequeues (limiter : RateLimiter K S) : Type 0 where
    pub after_when :
        (x y : K) (s : S)
        → limiter.num_requeues y (limiter.when x s).1
          ≡ ite (dec x y) (suc (limiter.num_requeues y s)) (limiter.num_requeues y s)
    pub after_forget :
        (x y : K) (s : S)
        → limiter.num_requeues y (limiter.forget x s) ≡ ite (dec x y) 0 (limiter.num_requeues y s)

  -- The counters of `r` are those of `q`.
  abbrev pub SameCounters : Queue K S → Queue K S → Type 0
  SameCounters q r = (r.failures ≡ q.failures) × (r.rate_limiter ≡ q.rate_limiter)

  add-SameCounters :
      (now : ℕ) (q : Queue K S) (item : K) (fresh : Bool)
      → SameCounters q (add_fresh_or_staled dec now q item fresh)
  unfolding add_fresh_or_staled
  add-SameCounters now q item fresh = ground arith

  get-SameCounters : (now : ℕ) (q : Queue K S) → SameCounters q (get dec now q).0
  unfolding get
  get-SameCounters now q = ground arith

  get_fresh-SameCounters : (now : ℕ) (q : Queue K S) → SameCounters q (get_fresh dec now q).0
  unfolding get_fresh
  get_fresh-SameCounters now q = ground arith

  select_send-SameCounters :
      (pick : Bool) (q : Queue K S) (e : WaitFor K)
      → Ensures (SameCounters q) (select_send pick q e)
  unfolding select_send
  select_send-SameCounters pick q e = ground arith

  add_counted-SameCounters :
      (now : ℕ) (pick : Bool) (q : Queue K S) (item : K) (d : ℤ) (m : Option (Metrics.Metrics K))
      → Ensures (SameCounters q) (add_counted dec now pick q item d m)
  add_counted-SameCounters now pick q item d none = tt
  add_counted-SameCounters now pick q item (pos (suc n)) (some m) =
      select_send-SameCounters pick (record q { metrics = m }) _
  add_counted-SameCounters now pick q item (pos zero) (some m) =
      add-SameCounters now (record q { metrics = m }) item _
  add_counted-SameCounters now pick q item (negsuc n) (some m) =
      add-SameCounters now (record q { metrics = m }) item _

  add_after-SameCounters :
      (now : ℕ) (pick : Bool) (q : Queue K S) (item : K) (d : ℤ)
      → Ensures (SameCounters q) (add_after dec now pick q item d)
  unfolding add_after
  add_after-SameCounters now pick q item d =
      Ensures-if (SameCounters q) q.shutting_down (ok q) _ (λ _. (refl, refl))
        (λ _. add_counted-SameCounters now pick q item d (Metrics.retry q.metrics))

  module _ (limiter : RateLimiter K S) where
    -- The queue's own count of the retries of an item is the limiter's.
    pub record Agrees (q : Queue K S) : Type 0 where
      pub at : (x : K) → failures_of dec q x ≡ limiter.num_requeues x q.rate_limiter

    Agrees-same : (q r : Queue K S) → Agrees q → SameCounters q r → Agrees r
    unfolding failures_of
    Agrees-same q r a s = record { at = λ x. rw (s.0, s.1) (a.at x) }

    Ensures-Agrees :
        (q : Queue K S) (o : Run (Queue K S))
        → Agrees q
        → Ensures (SameCounters q) o
        → Ensures Agrees o
    Ensures-Agrees q (ok r) a s = Agrees-same q r a s
    Ensures-Agrees q (blocked r) a s = Agrees-same q r a s
    Ensures-Agrees q panic a s = tt

    done-SameCounters :
        (now : ℕ) (q : Queue K S) (item : K) → SameCounters q (done dec limiter now q item)
    unfolding done
    done-SameCounters now q item = ground arith

    module _ (laws : CountsRequeues limiter) where
      forget-Agrees : (q : Queue K S) (item : K) → Agrees q → Agrees (forget dec limiter q item)
      unfolding forget failures_of
      forget-Agrees q item a = record {
        at = λ x. ground (
          arith,
          a.at x,
          GoMap.get-remove dec q.failures item x,
          laws.after_forget item x q.rate_limiter,
        );
      }

      -- The state that `AddRateLimited` hands to `AddAfter`.
      abbrev retried : Queue K S → K → Queue K S
      retried q item = record q {
        failures = GoMap.put dec q.failures item (suc (failures_of dec q item));
        rate_limiter = (limiter.when item q.rate_limiter).1;
      }

      retried-Agrees : (q : Queue K S) (item : K) → Agrees q → Agrees (retried q item)
      unfolding failures_of
      retried-Agrees q item a = record {
        at = λ x. ground (
          arith,
          a.at x,
          a.at item,
          GoMap.get-put dec q.failures item x (suc (failures_of dec q item)),
          laws.after_when item x q.rate_limiter,
        );
      }

      step-Agrees :
          (now : ℕ) (q : Queue K S) (c : Call K)
          → Agrees q
          → Ensures Agrees (step dec limiter now q c)
      unfolding step add add_rate_limited shut_down update_unfinished_work
      step-Agrees now q (adds item) a = Agrees-same q _ a (add-SameCounters now q item true)
      step-Agrees now q (adds_ready item) a = Agrees-same q _ a (add-SameCounters now q item _)
      step-Agrees now q (dones item) a = Agrees-same q _ a (done-SameCounters now q item)
      step-Agrees now q (forgets item) a = forget-Agrees q item a
      step-Agrees now q gets a = Agrees-same q _ a (get-SameCounters now q)
      step-Agrees now q gets_fresh a = Agrees-same q _ a (get_fresh-SameCounters now q)
      step-Agrees now q shuts_down a = Agrees-same q _ a (ground arith)
      step-Agrees now q updates a = Agrees-same q _ a (ground arith)
      step-Agrees now q receives a = Agrees-same q _ a (refl, refl)
      step-Agrees now q (adds_after pick item d) a =
          Ensures-Agrees q (add_after dec now pick q item d) a
            (add_after-SameCounters now pick q item d)
      step-Agrees now q (adds_rate_limited pick item) a =
          let d = (limiter.when item q.rate_limiter).0 in
          Ensures-Agrees (retried q item) (add_after dec now pick (retried q item) item d)
            (retried-Agrees q item a) (add_after-SameCounters now pick (retried q item) item d)

      -- In every reachable state the count that the queue keeps of the retries of an item,
      -- `failures`, is the count that the rate limiter keeps, `NumRequeues`, if the limiter counts
      -- as client-go documents and starts at 0.
      pub Reach-Agrees :
          {n : ℕ} {s : S} {name : String} {provider : MetricsProvider} {q : Queue K S}
          → ((x : K) → limiter.num_requeues x s ≡ 0)
          → Reach dec limiter n s name provider q
          → Agrees q
      unfolding new_named_playboy_queue failures_of GoMap.get
      Reach-Agrees zeros start = record { at = λ x. sym (zeros x) }
      Reach-Agrees zeros (later {q} now c r a (inl e)) =
          rw e at (step-Agrees now q c (Reach-Agrees zeros r))
      Reach-Agrees zeros (later {q} now c r a (inr e)) =
          rw e at (step-Agrees now q c (Reach-Agrees zeros r))
