-- ===== src/Controller/Running/Lowers.antt =====
-- pkg/utils/controller: after a shutdown of the queue each turn of a goroutine leaves fewer turns.
use k8s_controller_the_hard.Prelude.{
  ℕ, suc, ◌+◌, ◌*◌, ◌≤◌, ◌<◌, ◌≡◌, refl, subst, Bool, true, false, some, List, [], ◌∷◌, arith,
  length,
}
use k8s_controller_the_hard.Prelude.Places.{total}
use k8s_controller_the_hard.Workqueue.Set.{has, delete}
use k8s_controller_the_hard.Workqueue.Queue.{
  Queue, RateLimiter, get, get_case, get_fresh, get_fresh_case, done,
}
use k8s_controller_the_hard.Workqueue.Queue.Invariant.{IsValid}
use k8s_controller_the_hard.Workqueue.Queue.Delivery.{fresh-HandsOut, staled-HandsOut}
use k8s_controller_the_hard.Controller.Running.{
  Stage, idle, polling, left, busy, Goroutine, Running, Turn, takes, finishes, polls, after_get,
  turn,
}

module _ {K : Type 0} (dec : Discrete K) where
  delete-length : (xs : List K) (x : K) → length (delete dec xs x) ≤ length xs
  unfolding delete
  delete-length [] x = omega arith
  delete-length (y ∷ xs) x = ground (arith, delete-length xs x)

  delete-shorter :
      (xs : List K) (x : K) → has dec xs x ≡ true → suc (length (delete dec xs x)) ≤ length xs
  unfolding delete has
  delete-shorter [] x h = cc
  delete-shorter (y ∷ xs) x h = ground (arith, delete-length xs x, delete-shorter xs x)

some_result : {A : Type 0} (P : A → Type 0) (a b : A) → some a ≡ some b → P a → P b
some_result P a b e p = let same : a ≡ b = cc in subst P same p

module _ {K : Type 0} where
  -- How many turns a goroutine has ahead, an item that it is to take aside.
  abbrev pub turns_left : Goroutine K → ℕ
  turns_left g = elim g.stage [ idle ↦ 1 | polling ↦ 1 | left ↦ 0 | busy x ↦ 2 ]

  pub total-turns_left : (gs : List (Goroutine K)) → total turns_left gs ≤ 2 * length gs
  unfolding total
  total-turns_left [] = omega arith
  total-turns_left (g ∷ gs) = ground (arith, total-turns_left gs)

  abbrev pub AllLeft : List (Goroutine K) → Type 0
  AllLeft [] = Unit {0}
  AllLeft (g ∷ gs) = (g.stage ≡ left) × AllLeft gs

module _ {K S : Type 0} where
  -- A bound of the turns ahead: three for each request.
  abbrev pub turns_ahead : Running K S → ℕ
  turns_ahead s = 3 * length s.queue.dirty + total turns_left s.goroutines

  -- Less is ahead, for the goroutine `g` on `q`.
  abbrev pub Lowers : Queue K S → Goroutine K → Queue K S × Goroutine K → Type 0
  Lowers q g o = 3 * length o.0.dirty + turns_left o.1 < 3 * length q.dirty + turns_left g

module _ {K S : Type 0} (dec : Discrete K) (limiter : RateLimiter K S) where
  case-Lowers :
      (now : ℕ) (q : Queue K S) (fresh : Bool) (fs ss : List K)
      → IsValid dec q
      → q.queue_fresh ≡ fs
      → q.queue_staled ≡ ss
      → Lowers q
          (record { fresh = fresh; stage = idle })
          (after_get fresh (get_case dec now q fs ss))
  case-Lowers now q fresh (x ∷ fs) ss v f s =
      let d = delete-shorter dec q.dirty x (fresh-HandsOut dec now q x fs ss v f).was_requested in
      omega arith
  case-Lowers now q fresh [] (x ∷ ss) v f s =
      let d = delete-shorter dec q.dirty x (staled-HandsOut dec now q x ss v s).was_requested in
      omega arith
  case-Lowers now q fresh [] [] v f s = omega arith

  fresh_case-Lowers :
      (now : ℕ) (q : Queue K S) (fresh : Bool) (fs : List K)
      → IsValid dec q
      → q.queue_fresh ≡ fs
      → Lowers q
          (record { fresh = fresh; stage = idle })
          (after_get fresh (get_fresh_case dec now q fs))
  fresh_case-Lowers now q fresh (x ∷ fs) v f =
      let d = delete-shorter dec q.dirty x (fresh-HandsOut dec now q x fs [] v f).was_requested in
      omega arith
  fresh_case-Lowers now q fresh [] v f = omega arith

  get-closed :
      (now : ℕ) (q : Queue K S)
      → q.shutting_down ≡ true
      → get dec now q ≡ get_case dec now q q.queue_fresh q.queue_staled
  unfolding get
  get-closed now q d = ground arith

  get_fresh-closed :
      (now : ℕ) (q : Queue K S)
      → q.shutting_down ≡ true
      → get_fresh dec now q ≡ get_fresh_case dec now q q.queue_fresh
  unfolding get_fresh
  get_fresh-closed now q d = ground arith

  done-dirty : (now : ℕ) (q : Queue K S) (x : K) → (done dec limiter now q x).dirty ≡ q.dirty
  unfolding done
  done-dirty now q x = ground arith

  pub turn-Lowers :
      (now : ℕ) (q : Queue K S) (t : Turn) (fresh : Bool) (stage : Stage K)
      (o : Queue K S × Goroutine K)
      → IsValid dec q
      → q.shutting_down ≡ true
      → turn dec limiter now q t fresh stage ≡ some o
      → Lowers q (record { fresh = fresh; stage = stage }) o
  unfolding turn
  turn-Lowers now q takes true idle o v d e =
      some_result (Lowers q (record { fresh = true; stage = idle })) _ o e
        (rw (get_fresh-closed now q d) (fresh_case-Lowers now q true q.queue_fresh v refl))
  turn-Lowers now q takes false idle o v d e =
      some_result (Lowers q (record { fresh = false; stage = idle })) _ o e
        (rw (get-closed now q d) (case-Lowers now q false q.queue_fresh q.queue_staled v refl refl))
  turn-Lowers now q finishes fresh (busy x) o v d e =
      some_result (Lowers q (record { fresh = fresh; stage = busy x })) _ o e
        (rw (done-dirty now q x) (omega arith))
  turn-Lowers now q polls fresh polling o v d e =
      some_result (Lowers q (record { fresh = fresh; stage = polling })) _ o e (rw d (omega arith))
  turn-Lowers now q takes true polling o v d e = cc
  turn-Lowers now q takes false polling o v d e = cc
  turn-Lowers now q takes true left o v d e = cc
  turn-Lowers now q takes false left o v d e = cc
  turn-Lowers now q takes true (busy x) o v d e = cc
  turn-Lowers now q takes false (busy x) o v d e = cc
  turn-Lowers now q finishes fresh idle o v d e = cc
  turn-Lowers now q finishes fresh polling o v d e = cc
  turn-Lowers now q finishes fresh left o v d e = cc
  turn-Lowers now q polls fresh idle o v d e = cc
  turn-Lowers now q polls fresh left o v d e = cc
  turn-Lowers now q polls fresh (busy x) o v d e = cc
