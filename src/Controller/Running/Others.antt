-- ===== src/Controller/Running/Others.antt =====
-- pkg/utils/controller: the calls of the other goroutines leave the items in process alone.
use k8s_controller_the_hard.Prelude.{
  ℕ, zero, suc, ◌≡◌, refl, sym, ap, ◌∙◌, ◌⊎◌, inl, inr, true, ok, blocked, Run,
}
use k8s_controller_the_hard.Prelude.Int.{ℤ, pos, negsuc}
use k8s_controller_the_hard.Workqueue.Set.{has}
use k8s_controller_the_hard.Workqueue.Queue.{Queue, RateLimiter}
use k8s_controller_the_hard.Workqueue.Contract.{move, View}
use k8s_controller_the_hard.Workqueue.Queue.Steps.{
  Call, adds, adds_ready, dones, forgets, gets, gets_fresh, shuts_down, updates, receives,
  adds_after, adds_rate_limited, step, Ensures, Allowed,
}
use k8s_controller_the_hard.Workqueue.Queue.Placement.{to_count}
use k8s_controller_the_hard.Workqueue.Queue.Invariant.{IsValid, step-IsValid}
use k8s_controller_the_hard.Workqueue.Queue.Refinement.{view, delayed, label, Makes, step-Makes}
use k8s_controller_the_hard.Controller.Running.{Running, IsOutside}
use k8s_controller_the_hard.Controller.Running.Held.{IsHeld}

module _ {K S : Type 0} (dec : Discrete K) (limiter : RateLimiter K S) where
  outside-Allowed : (q : Queue K S) (c : Call K) → IsOutside dec limiter c → Allowed dec limiter q c
  outside-Allowed q (adds x) o = tt
  outside-Allowed q (adds_ready x) o = tt
  outside-Allowed q (dones x) o = absurd o
  outside-Allowed q (forgets x) o = tt
  outside-Allowed q gets o = absurd o
  outside-Allowed q gets_fresh o = absurd o
  outside-Allowed q shuts_down o = tt
  outside-Allowed q updates o = tt
  outside-Allowed q receives o = tt
  outside-Allowed q (adds_after pick x d) o = tt
  outside-Allowed q (adds_rate_limited pick x) o = tt

  delayed-keeps :
      (q : Queue K S) (x : K) (d : ℤ)
      → ((y : K)
          → (View.in_process (move dec (view dec limiter q) (delayed dec limiter x d))) y
            ≡ has dec q.processing y)
        × (q.shutting_down ≡ true
            → View.closed (move dec (view dec limiter q) (delayed dec limiter x d)) ≡ true)
  delayed-keeps q x (pos (suc n)) = (λ y. refl, λ h. h)
  delayed-keeps q x (pos zero) = (λ y. refl, λ h. h)
  delayed-keeps q x (negsuc n) = (λ y. refl, λ h. h)

  -- A call of the others changes nothing of what is in process, and does not undo a shutdown.
  outside-keeps :
      (now : ℕ) (q : Queue K S) (c : Call K)
      → IsOutside dec limiter c
      → ((x : K)
          → (View.in_process (move dec (view dec limiter q) (label dec limiter now q c))) x
            ≡ has dec q.processing x)
        × (q.shutting_down ≡ true
            → View.closed (move dec (view dec limiter q) (label dec limiter now q c)) ≡ true)
  outside-keeps now q (adds x) o = (λ y. refl, λ h. h)
  outside-keeps now q (adds_ready x) o = (λ y. refl, λ h. h)
  outside-keeps now q (forgets x) o = (λ y. refl, λ h. h)
  outside-keeps now q (dones x) o = absurd o
  outside-keeps now q gets o = absurd o
  outside-keeps now q gets_fresh o = absurd o
  outside-keeps now q shuts_down o = (λ y. refl, λ h. refl)
  outside-keeps now q updates o = (λ y. refl, λ h. h)
  outside-keeps now q receives o = (λ y. refl, λ h. h)
  outside-keeps now q (adds_after pick x d) o = delayed-keeps q x d
  outside-keeps now q (adds_rate_limited pick x) o =
      delayed-keeps q x (limiter.when x q.rate_limiter).0

  pub ensured :
      (P : Queue K S → Type 0) (run : Run (Queue K S)) (r : Queue K S)
      → Ensures P run
      → (run ≡ ok r) ⊎ (run ≡ blocked r)
      → P r
  ensured P run r e (inl p) = rw p at e
  ensured P run r e (inr p) = rw p at e

  pub outside-IsHeld :
      (now : ℕ) (s : Running K S) (c : Call K) (r : Queue K S)
      → IsHeld dec limiter s
      → IsOutside dec limiter c
      → (step dec limiter now s.queue c ≡ ok r) ⊎ (step dec limiter now s.queue c ≡ blocked r)
      → IsHeld dec limiter (record s { queue = r })
  outside-IsHeld now s c r v o h =
      let made =
        ensured (Makes dec limiter (label dec limiter now s.queue c) s.queue) _ r
          (step-Makes dec limiter now s.queue c v.valid) h in
      let kept = outside-keeps now s.queue c o in
      record {
        valid =
            ensured (IsValid dec) _ r
              (step-IsValid dec limiter now s.queue c v.valid (outside-Allowed s.queue c o)) h;
        held = λ x. v.held x ∙ ap to_count (sym (made.1.in_process x ∙ kept.0 x));
        gone = λ i g e l. made.1.closed ∙ kept.1 (v.gone i g e l);
      }
