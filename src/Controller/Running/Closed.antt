-- ===== src/Controller/Running/Closed.antt =====
-- pkg/utils/controller: the calls of the other goroutines after a shutdown of the queue.
use k8s_controller_the_hard.Prelude.{ℕ, suc, ◌≡◌, refl, ◌⊎◌, true, ok, blocked, arith}
use k8s_controller_the_hard.Prelude.GoMap
use k8s_controller_the_hard.Workqueue.Queue.{
  Queue, RateLimiter, add, add_rate_limited, forget, is_fresh, failures_of, shut_down,
}
use k8s_controller_the_hard.Workqueue.Queue.Steps.{
  Call, adds, adds_ready, dones, forgets, gets, gets_fresh, shuts_down, updates, receives,
  adds_after, adds_rate_limited, step, Ensures,
}
use k8s_controller_the_hard.Workqueue.Queue.Drain.{add-closed, add_after-closed, update-closed}
use k8s_controller_the_hard.Controller.Running.{IsOutside}
use k8s_controller_the_hard.Controller.Running.Others.{ensured}

module _ {K S : Type 0} where
  -- The same requests, and shut down.
  abbrev pub Rests : Queue K S → Queue K S → Type 0
  Rests q r = (r.dirty ≡ q.dirty) × (r.shutting_down ≡ true)

  shut_down-Rests : (q : Queue K S) → q.shutting_down ≡ true → Rests q (shut_down q)
  unfolding shut_down
  shut_down-Rests q d = (ground arith, ground arith)

module _ {K S : Type 0} (dec : Discrete K) (limiter : RateLimiter K S) where
  step-Rests :
      (now : ℕ) (q : Queue K S) (c : Call K)
      → IsOutside dec limiter c
      → q.shutting_down ≡ true
      → Ensures (Rests q) (step dec limiter now q c)
  unfolding step add forget add_rate_limited
  step-Rests now q (adds item) o d = rw (add-closed dec now q item true d) (refl, d)
  step-Rests now q (adds_ready item) o d =
      rw (add-closed dec now q item (is_fresh dec q item) d) (refl, d)
  step-Rests now q (dones item) o d = absurd o
  step-Rests now q (forgets item) o d = (refl, d)
  step-Rests now q gets o d = absurd o
  step-Rests now q gets_fresh o d = absurd o
  step-Rests now q shuts_down o d = shut_down-Rests q d
  step-Rests now q updates o d = rw (update-closed now q d) (refl, d)
  step-Rests now q receives o d = (refl, d)
  step-Rests now q (adds_after pick item x) o d =
      rw (add_after-closed dec now pick q item x d) (refl, d)
  step-Rests now q (adds_rate_limited pick item) o d =
      rw (add_after-closed dec now pick (retried q item) item _ d) (refl, d)
    where
      retried : Queue K S → K → Queue K S
      retried q item = record q {
        failures = GoMap.put dec q.failures item (suc (failures_of dec q item));
        rate_limiter = (limiter.when item q.rate_limiter).1;
      }

  -- After the shutdown, a call of the others requests nothing.
  pub outside-Rests :
      (now : ℕ) (q : Queue K S) (c : Call K) (r : Queue K S)
      → IsOutside dec limiter c
      → q.shutting_down ≡ true
      → (step dec limiter now q c ≡ ok r) ⊎ (step dec limiter now q c ≡ blocked r)
      → Rests q r
  outside-Rests now q c r o d h = ensured dec limiter (Rests q) _ r (step-Rests now q c o d) h
