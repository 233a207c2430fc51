-- ===== src/Workqueue/Queue/Placement.antt =====
-- pkg/utils/workqueue/playboyqueue.go: where an item stands in the two queues, after each method.
use k8s_controller_the_hard.Prelude.{
  ℕ, ◌+◌, ◌≡◌, refl, Bool, true, false, not, ◌&&◌, List, [], ◌∷◌, arith, count, count-append,
}
use k8s_controller_the_hard.Workqueue.Set.{has, has-insert, has-delete}
use k8s_controller_the_hard.Workqueue.Queue.{
  Queue, RateLimiter, add_fresh_or_staled, get_case, get, get_fresh_case, get_fresh, done,
}

-- 1 or 0
abbrev pub to_count : Bool → ℕ
to_count true = 1
to_count false = 0

module _ {K S : Type 0} (dec : Discrete K) where
  -- How often an item stands in the two queues together.
  abbrev pub queued : Queue K S → K → ℕ
  queued q x = count dec x q.queue_fresh + count dec x q.queue_staled

  -- Dirty, and not handed out to a worker.
  abbrev pub pending : Queue K S → K → Bool
  pending q x = has dec q.dirty x && not (has dec q.processing x)

  -- An item stands once in the queues while it is pending, and else not at all.
  abbrev pub IsPlaced : Queue K S → K → Type 0
  IsPlaced q x = queued q x ≡ to_count (pending q x)

  pub add-IsPlaced :
      (now : ℕ) (q : Queue K S) (item : K) (fresh : Bool)
      → ((x : K) → IsPlaced q x)
      → (x : K) → IsPlaced (add_fresh_or_staled dec now q item fresh) x
  unfolding add_fresh_or_staled
  add-IsPlaced now q item fresh v x = ground (
    arith,
    v x,
    v item,
    has-insert dec q.dirty item x,
    count-append dec x q.queue_fresh (item ∷ []),
    count-append dec x q.queue_staled (item ∷ []),
  )

  get_case-IsPlaced :
      (now : ℕ) (q : Queue K S)
      → ((x : K) → IsPlaced q x)
      → (fs ss : List K) → q.queue_fresh ≡ fs
      → q.queue_staled ≡ ss
      → (x : K) → IsPlaced (get_case dec now q fs ss).0 x
  get_case-IsPlaced now q v (i ∷ fs) ss f s x =
      ground (arith, v x, v i, has-insert dec q.processing i x, has-delete dec q.dirty i x)
  get_case-IsPlaced now q v [] (i ∷ ss) f s x =
      ground (arith, v x, v i, has-insert dec q.processing i x, has-delete dec q.dirty i x)
  get_case-IsPlaced now q v [] [] f s x = v x

  pub done-IsPlaced :
      (limiter : RateLimiter K S) (now : ℕ) (q : Queue K S) (item : K)
      → ((x : K) → IsPlaced q x)
      → has dec q.processing item ≡ true
      → (x : K) → IsPlaced (done dec limiter now q item) x
  unfolding done
  done-IsPlaced limiter now q item v h x = ground (
    arith,
    v x,
    v item,
    has-delete dec q.processing item x,
    count-append dec x q.queue_fresh (item ∷ []),
    count-append dec x q.queue_staled (item ∷ []),
  )

  pub get-IsPlaced :
      (now : ℕ) (q : Queue K S) → ((x : K) → IsPlaced q x) → (x : K) → IsPlaced (get dec now q).0 x
  unfolding get
  get-IsPlaced now q v x =
      ground (arith, v x, get_case-IsPlaced now q v q.queue_fresh q.queue_staled refl refl x)

  get_fresh_case-IsPlaced :
      (now : ℕ) (q : Queue K S)
      → ((x : K) → IsPlaced q x)
      → (fs : List K) → q.queue_fresh ≡ fs
      → (x : K) → IsPlaced (get_fresh_case dec now q fs).0 x
  get_fresh_case-IsPlaced now q v (i ∷ fs) f x =
      get_case-IsPlaced now q v (i ∷ fs) q.queue_staled f refl x
  get_fresh_case-IsPlaced now q v [] f x = v x

  pub get_fresh-IsPlaced :
      (now : ℕ) (q : Queue K S)
      → ((x : K) → IsPlaced q x)
      → (x : K) → IsPlaced (get_fresh dec now q).0 x
  unfolding get_fresh
  get_fresh-IsPlaced now q v x =
      ground (arith, v x, get_fresh_case-IsPlaced now q v q.queue_fresh refl x)
