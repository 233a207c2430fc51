-- ===== src/Workqueue/PriorityQueue/Pops.antt =====
-- pkg/utils/workqueue/helper.go: `heap.Pop` on the queue of waiting entries.
use k8s_controller_the_hard.Prelude.Places.{total, get_elem?, get_elem?-some}
use k8s_controller_the_hard.Prelude.{
  ℕ, zero, suc, ◌+◌, ◌-◌, ◌≤◌, ◌<◌, ◌≡◌, refl, ap, ◌∙◌, ◌⊎◌, inl, inr, some, List, [], ◌∷◌, length,
  arith, sym,
}
use k8s_controller_the_hard.Prelude.Int.{negsuc}
use k8s_controller_the_hard.Workqueue.PriorityQueue.{
  Entry, moved, down_from, down, heap_pop, pop_last, peek, with_result,
}
use k8s_controller_the_hard.Workqueue.PriorityQueue.Order.{
  Around, LeadsChildren, IsOrdered, Sinks, Sinks-IsOrdered, IsOrdered-first, parent,
}
use k8s_controller_the_hard.Workqueue.PriorityQueue.Places.{
  time, time_of, weight, weigh, IsIndexed, Shuffled-trans, Swaps, swap-Swaps,
}
use k8s_controller_the_hard.Workqueue.PriorityQueue.Sifting.{Downs, down_from-Downs}

module _ {K : Type 0} where
  -- What `Pop` returns for the last entry.
  abbrev pub unplaced : Entry K → Entry K
  unplaced e = record e { index = negsuc 0 }

  -- The entries before the last stay where they are, and the last goes with the index -1.
  record Cuts (xs : List (Entry K)) (pq : List (Entry K)) (e : Entry K) : Type 0 where
    one_less : suc (length pq) ≡ length xs
    index : e.index ≡ negsuc 0
    before : (k : ℕ) (b : Entry K) → get_elem? pq k ≡ some b → get_elem? xs k ≡ some b
    weights : (w : K → ℕ → ℕ) → weight w e + weigh w pq ≡ weigh w xs
    last : (b : Entry K) → get_elem? xs (length pq) ≡ some b → e ≡ unplaced b

  some-path : (a b : Entry K) → some a ≡ some b → a ≡ b
  some-path a b e = cc

  pop_last-Cuts :
      (x : Entry K) (xs : List (Entry K))
      → (pq : List (Entry K)) × (e : Entry K) × (pop_last (x ∷ xs) ≡ some (pq, e))
        × Cuts (x ∷ xs) pq e
  unfolding pop_last get_elem? total
  pop_last-Cuts x [] = (
    [],
    unplaced x,
    refl,
    record {
      one_less = refl;
      index = refl;
      before = λ k b h. cc;
      weights = λ w. refl;
      last = λ b h. ap unplaced (some-path x b h);
    },
  )
  pop_last-Cuts x (y ∷ ys) =
      let (pq, e, r, c) = pop_last-Cuts y ys in
      (
        x ∷ pq,
        e,
        rw r refl,
        record {
          one_less = ap suc c.one_less;
          index = c.index;
          before = λ k b h. before_next x pq y ys c.before k b h;
          weights = λ w. omega (arith, c.weights w);
          last = λ b h. c.last b h;
        },
      )
    where
      before_next :
          (x : Entry K) (pq : List (Entry K)) (y : Entry K) (ys : List (Entry K))
          → ((k : ℕ) (b : Entry K) → get_elem? pq k ≡ some b → get_elem? (y ∷ ys) k ≡ some b)
          → (k : ℕ) (b : Entry K) → get_elem? (x ∷ pq) k ≡ some b
          → get_elem? (x ∷ y ∷ ys) k ≡ some b
      before_next x pq y ys same zero b h = h
      before_next x pq y ys same (suc k) b h = same k b h

  -- The entries without `e`, which is the first of them.
  pub record Popped (pq : List (Entry K)) (s : List (Entry K)) (e : Entry K) : Type 0 where
    pub one_less : suc (length s) ≡ length pq
    pub indexed : IsIndexed pq → IsIndexed s
    pub unindexed : e.index ≡ negsuc 0
    pub ordered : IsOrdered (length pq) (time pq) → IsOrdered (length s) (time s)
    pub least : IsOrdered (length pq) (time pq) → (k : ℕ) → k < length pq → e.ready_at ≤ time pq k
    pub first : (a : Entry K) → peek pq ≡ some a → e ≡ unplaced a
    pub weights : (w : K → ℕ → ℕ) → weight w e + weigh w s ≡ weigh w pq

  -- After the first and the last entry are exchanged, only the first may be after its children.
  swap-Sinks :
      (pq s : List (Entry K)) (m : ℕ)
      → Swaps pq 0 m s
      → m < length pq
      → IsOrdered (length pq) (time pq)
      → Sinks m (time s) 0
  swap-Sinks pq s m sw h o = (
    record {
      bridged = λ k z. absurd (omega (arith, z));
      rest = λ k kp km d q. omega (
        arith,
        o k kp (omega (arith, km, h)),
        sw.exchanges.others k (omega (arith, d)) (omega (arith, km)),
        sw.exchanges.others (parent k) (omega (arith, q)) (omega (arith, km)),
      );
    },
    λ z. absurd (omega (arith, z)),
  )

  cut-time :
      (xs pq : List (Entry K)) (e : Entry K)
      → Cuts xs pq e
      → (k : ℕ) → k < length pq
      → time pq k ≡ time xs k
  cut-time xs pq e c k h =
      let (a, ea) = get_elem?-some pq k h in ap time_of (ea ∙ sym (c.before k a ea))

  cut-IsOrdered :
      (xs pq : List (Entry K)) (e : Entry K)
      → Cuts xs pq e
      → IsOrdered (length pq) (time xs)
      → IsOrdered (length pq) (time pq)
  cut-IsOrdered xs pq e c o k p h =
      omega
        (arith, o k p h, cut-time xs pq e c k h, cut-time xs pq e c (parent k) (omega (arith, h)))

  front-least :
      (pq : List (Entry K)) (x : Entry K) (k : ℕ)
      → ((a : Entry K) → peek pq ≡ some a → x ≡ unplaced a)
      → IsOrdered (length pq) (time pq)
      → k < length pq
      → x.ready_at ≤ time pq k
  unfolding peek
  front-least pq x k front o h =
      let (a, ea) = get_elem?-some pq 0 (omega (arith, h)) in
      omega (
        arith,
        IsOrdered-first (length pq) (time pq) o (suc k) k (omega arith) h,
        ap time_of ea,
        ap Entry.ready_at (front a ea),
      )

  -- The entries after `down`, in order up to the last.
  stopped-IsOrdered :
      (s d : List (Entry K)) (m j : ℕ)
      → Sinks m (time s) 0
      → ((j ≡ 0) × (d ≡ s) × LeadsChildren m (time s) 0)
        ⊎ ((0 < j) × (Around m (time s) 0 → IsOrdered m (time d)))
      → IsOrdered m (time d)
  stopped-IsOrdered s d m j sinks (inl (e, same, lead)) =
      rw same (Sinks-IsOrdered m (time s) 0 sinks lead)
  stopped-IsOrdered s d m j sinks (inr (h, o)) = o sinks.0

  down-Popped :
      (fuel : ℕ) (pq s : List (Entry K)) (m : ℕ)
      → length pq ≡ suc m
      → Swaps pq 0 m s
      → Downs s 0 m (down_from fuel s 0 m)
      → (t : List (Entry K)) × (e : Entry K) × (with_result (down fuel s 0 m) (λ d. pop_last d.0)
          ≡ some (t, e))
        × Popped pq t e
  unfolding down peek
  down-Popped fuel pq s m n sw ([], j, e, k, above, stop) =
      absurd (omega (arith, n, k.same_length, sw.shuffled.same_length))
  down-Popped fuel pq s m n sw (d ∷ ds, j, e, k, above, stop) =
      let (t, x, g, c) = pop_last-Cuts d ds in
      let all = Shuffled-trans pq s (d ∷ ds) sw.shuffled k in
      let short : length t ≡ m = omega (arith, c.one_less, all.same_length, n) in
      let front : (a : Entry K) → peek pq ≡ some a → x ≡ unplaced a =
        λ a h. c.last (moved a m) (rw short (above m (omega arith) ∙ sw.second a h)) in
      (
        t,
        x,
        rw (e, g) refl,
        record {
          one_less = c.one_less ∙ all.same_length;
          indexed = λ v i b h. all.indexed v i b (c.before i b h);
          unindexed = c.index;
          ordered = λ o. cut-IsOrdered (d ∷ ds) t x c (
              rw short (
                stopped-IsOrdered s (d ∷ ds) m j (swap-Sinks pq s m sw (omega (arith, n)) o) stop));
          least = λ o i h. front-least pq x i front o h;
          first = front;
          weights = λ w. c.weights w ∙ all.same_weight w;
        },
      )

  pub pop-Popped :
      (pq : List (Entry K)) (m : ℕ)
      → length pq ≡ suc m
      → (s : List (Entry K)) × (e : Entry K) × (heap_pop pq ≡ some (s, e)) × Popped pq s e
  unfolding heap_pop
  pop-Popped pq m n =
      let last : length pq - 1 ≡ m = omega (arith, n) in
      let (s, e, sw) = swap-Swaps pq 0 m (omega (arith, n)) (omega (arith, n)) in
      let short : m ≤ length s = omega (arith, n, sw.shuffled.same_length) in
      rw (last, e)
        (down-Popped (suc m) pq s m n sw
          (down_from-Downs (suc m) s 0 m short (omega arith) (omega arith)))
