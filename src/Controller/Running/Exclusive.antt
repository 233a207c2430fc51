-- ===== src/Controller/Running/Exclusive.antt =====
-- pkg/utils/controller: no two goroutines of the workers reconcile the same item.
use k8s_controller_the_hard.Prelude.{
  ℕ, zero, suc, ◌≡◌, refl, sym, ap, ◌∙◌, ◌⊎◌, inl, inr, Bool, true, false, some, List, [], ◌∷◌,
  ◌++◌, if_pos, arith, Bool-cases, ◌==◌,
}
use k8s_controller_the_hard.Prelude.Int.{ℤ, pos, negsuc}
use k8s_controller_the_hard.Prelude.Places.{get_elem?, total, get_elem?-two}
use k8s_controller_the_hard.Workqueue.Set.{has}
use k8s_controller_the_hard.Workqueue.Queue.{Queue, RateLimiter}
use k8s_controller_the_hard.Workqueue.Queue.Placement.{to_count}
use k8s_controller_the_hard.Workqueue.Queue.Invariant.{IsValid}
use k8s_controller_the_hard.Controller.Running.{
  idle, polling, left, busy, Goroutine, Running, idle_copies, worker_run, run_workers, Reaches,
  starts, turns, others,
}
use k8s_controller_the_hard.Controller.Running.Held.{holds, IsHeld, Turned-IsHeld, turn-Turned}
use k8s_controller_the_hard.Controller.Running.Others.{outside-IsHeld}

module _ {K : Type 0} where
  -- The goroutine neither holds an item nor has it left.
  abbrev Starts : Goroutine K → Type 0
  Starts g = (g.stage ≡ idle) ⊎ (g.stage ≡ polling)

  abbrev AllStart : List (Goroutine K) → Type 0
  AllStart [] = Unit {0}
  AllStart (g ∷ gs) = Starts g × AllStart gs

  AllStart-append : (gs hs : List (Goroutine K)) → AllStart gs → AllStart hs → AllStart (gs ++ hs)
  AllStart-append [] hs a b = b
  AllStart-append (g ∷ gs) hs (s, a) b = (s, AllStart-append gs hs a b)

  AllStart-left :
      (gs : List (Goroutine K)) (i : ℕ) (g : Goroutine K)
      → AllStart gs
      → get_elem? gs i ≡ some g
      → g.stage ≡ left
      → ⊥
  unfolding get_elem?
  AllStart-left [] i g a e l = cc
  AllStart-left (h ∷ gs) zero g (inl s, a) e l = cc
  AllStart-left (h ∷ gs) zero g (inr s, a) e l = cc
  AllStart-left (h ∷ gs) (suc i) g (s, a) e l = AllStart-left gs i g a e l

idle_copies-AllStart : (K : Type 0) (n : ℕ) (fresh : Bool) → AllStart (idle_copies {K = K} n fresh)
unfolding idle_copies
idle_copies-AllStart K zero fresh = tt
idle_copies-AllStart K (suc n) fresh = (inl refl, idle_copies-AllStart K n fresh)

worker_run-AllStart : (K : Type 0) (fresh : Bool) (z : ℤ) → AllStart (worker_run {K = K} fresh z)
unfolding worker_run
worker_run-AllStart K fresh (pos (suc n)) = idle_copies-AllStart K (suc n) fresh
worker_run-AllStart K fresh (pos zero) = (inr refl, tt)
worker_run-AllStart K fresh (negsuc n) = (inr refl, tt)

module _ {K S : Type 0} (dec : Discrete K) (limiter : RateLimiter K S) where
  start-holds : (x : K) (g : Goroutine K) → Starts g → holds dec limiter x g ≡ 0
  start-holds x g (inl s) = rw s refl
  start-holds x g (inr s) = rw s refl

  AllStart-total :
      (x : K) (gs : List (Goroutine K)) → AllStart gs → total (holds dec limiter x) gs ≡ 0
  unfolding total
  AllStart-total x [] a = refl
  AllStart-total x (g ∷ gs) (s, a) = omega (arith, start-holds x g s, AllStart-total x gs a)

  -- What a run of the workers has at any time.
  pub record Excludes (s : Running K S) : Type 0 where
    pub one_each :
        (x : K) (i j : ℕ) (f g : Bool)
        → get_elem? s.goroutines i ≡ some (record { fresh = f; stage = busy x })
        → get_elem? s.goroutines j ≡ some (record { fresh = g; stage = busy x })
        → i ≡ j
    pub gone :
        (i : ℕ) (f : Bool)
        → get_elem? s.goroutines i ≡ some (record { fresh = f; stage = left })
        → Queue.shutting_down s.queue ≡ true

  pub Reaches-IsHeld :
      (s r : Running K S) → IsHeld dec limiter s → Reaches dec limiter s r → IsHeld dec limiter r
  Reaches-IsHeld s r v starts = v
  Reaches-IsHeld s _ v (turns {r} now i t g q h m e p) =
      let w = Reaches-IsHeld s r v m in
      Turned-IsHeld dec limiter r q i g h w e
        (turn-Turned dec limiter now r i t g.fresh g.stage q h w e p)
  Reaches-IsHeld s _ v (others {r} now c q m o p) =
      outside-IsHeld dec limiter now r c q (Reaches-IsHeld s r v m) o p

  IsHeld-Excludes : (s : Running K S) → IsHeld dec limiter s → Excludes s
  IsHeld-Excludes s v = record {
    one_each = λ x i j f g a b. elim (Bool-cases (i == j)) [
      | inl e ↦ ground (arith, e)
      | inr e ↦
          let two =
            get_elem?-two (holds dec limiter x) s.goroutines i j _ _ a b (ground (arith, e)) in
          absurd (ground (arith, two, v.held x, if_pos {C = ℕ} (dec x x) refl 1 0))
    ];
    gone = λ i f e. v.gone i _ e refl;
  }

  pub start-IsHeld :
      (fresh staled : ℤ) (q : Queue K S)
      → IsValid dec q
      → ((x : K) → has dec q.processing x ≡ false)
      → IsHeld dec limiter (run_workers fresh staled q)
  unfolding run_workers
  start-IsHeld fresh staled q v none_held =
      let all =
        AllStart-append (worker_run true fresh) (worker_run false staled)
          (worker_run-AllStart K true fresh) (worker_run-AllStart K false staled) in
      record {
        valid = v;
        held = λ x. AllStart-total x _ all ∙ sym (ap to_count (none_held x));
        gone = λ i g e l. absurd (AllStart-left _ i g all e l);
      }

  -- At any time of a run of the fresh and the staled worker, with any number of goroutines each, no
  -- two goroutines hold the same item: whichever goroutine calls `Get` or `Done` next, and whatever
  -- other goroutines call on the queue in between. A goroutine leaves its loop only after the
  -- shutdown. The run starts on a valid queue with nothing in process.
  pub run_workers-Excludes :
      (fresh staled : ℤ) (q : Queue K S) (r : Running K S)
      → IsValid dec q
      → ((x : K) → has dec q.processing x ≡ false)
      → Reaches dec limiter (run_workers fresh staled q) r
      → Excludes r
  run_workers-Excludes fresh staled q r v none_held m =
      IsHeld-Excludes r (Reaches-IsHeld _ r (start-IsHeld fresh staled q v none_held) m)
