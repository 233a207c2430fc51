-- ===== src/Workqueue/PriorityQueue/Sifting.antt =====
-- The `up` and `down` of container/heap on the queue of waiting entries: they end, find their places in
-- range, keep the entries, and restore the order.
use k8s_controller_the_hard.Prelude.Places.{get_elem?}
use k8s_controller_the_hard.Prelude.{
  ℕ, zero, suc, ◌+◌, ◌*◌, ◌≤◌, ◌<◌, ◌≡◌, refl, ◌∙◌, ◌⊎◌, inl, inr, Option, some, List, ltb, leb,
  ◌==◌, length, arith, Bool-cases,
}
use k8s_controller_the_hard.Workqueue.PriorityQueue.{Entry, up, child, down_from}
use k8s_controller_the_hard.Workqueue.PriorityQueue.Order.{
  parent, IsOrdered, Rises, Around, Sinks, LeadsChildren, Rises-IsOrdered, Sinks-IsOrdered,
  up-Rises, down-Sinks, children_least,
}
use k8s_controller_the_hard.Workqueue.PriorityQueue.Places.{
  time, Shuffled, Shuffled-refl, Shuffled-trans, swap-Swaps, Swaps, less-time,
}

module _ {K : Type 0} where
  -- The call returns the same entries, and in order if they were in order but for the place.
  abbrev pub Ups : List (Entry K) → ℕ → Option (List (Entry K)) → Type 0
  Ups pq j r =
      (s : List (Entry K)) × (r ≡ some s)
      × Shuffled pq s
      × (Rises (length pq) (time pq) j → IsOrdered (length pq) (time s))

  pub up-Ups :
      (fuel : ℕ) (pq : List (Entry K)) (j : ℕ) → j < length pq → j < fuel → Ups pq j (up fuel pq j)
  unfolding up
  up-Ups zero pq j h l = ground (arith, l)
  up-Ups (suc fuel) pq j h l = elim (Bool-cases (parent j == j)) [
    | inl root ↦ rw root (
      pq,
      refl,
      Shuffled-refl pq,
      λ r. Rises-IsOrdered (length pq) (time pq) j r (ground (arith, root)),
    )
    | inr n ↦
        let low : parent j < j = ground (arith, n) in
        let inside : parent j < length pq = omega (arith, low, h) in
        elim (Bool-cases (ltb (time pq j) (time pq (parent j)))) [
          | inr late ↦
              rw (n, less-time pq j (parent j) h inside, late)
                (
                  pq,
                  refl,
                  Shuffled-refl pq,
                  λ r. Rises-IsOrdered (length pq) (time pq) j r (ground (arith, late)),
                )
          | inl early ↦
              let (s, e, sw) = swap-Swaps pq (parent j) j inside h in
              let k = sw.shuffled in
              let x = sw.exchanges in
              let (t, f, m, o) =
                up-Ups fuel s (parent j) (omega (arith, k.same_length, inside))
                  (omega (arith, low, l)) in
              rw (n, less-time pq j (parent j) h inside, early, e)
                (
                  t,
                  f,
                  Shuffled-trans pq s t k m,
                  λ r. rw k.same_length at (
                      o (
                        rw k.same_length (
                          up-Rises (length pq) (time pq) (time s) j (omega (arith, low)) h x
                            (ground (arith, early)) r))),
                )
        ]
  ]

  -- The child that is chosen is a least one.
  child-least :
      (pq : List (Entry K)) (i n : ℕ)
      → suc (2 * i) < n
      → n ≤ length pq
      → (c : ℕ) × (child pq (suc (2 * i)) n ≡ some c)
        × (c < n)
        × (i < c)
        × (parent c ≡ i)
        × ((k : ℕ) → 0 < k → k < n → parent k ≡ i → time pq c ≤ time pq k)
  unfolding child
  child-least pq i n h l = elim (Bool-cases (ltb (suc (suc (2 * i))) n)) [
    | inl two ↦
        let e =
          less-time pq (suc (suc (2 * i))) (suc (2 * i)) (ground (arith, two, l))
            (omega (arith, h, l)) in
        elim (Bool-cases (ltb (time pq (suc (suc (2 * i)))) (time pq (suc (2 * i))))) [
          | inl t ↦ (
            suc (suc (2 * i)),
            rw (two, e, t) refl,
            ground (arith, two),
            omega arith,
            omega arith,
            children_least (time pq) n i (time pq (suc (suc (2 * i)))) (ground (arith, t))
                (λ q. omega arith),
          )
          | inr t ↦ (
            suc (2 * i),
            rw (two, e, t) refl,
            h,
            omega arith,
            omega arith,
            children_least (time pq) n i (time pq (suc (2 * i))) (omega arith)
                (λ q. ground (arith, t)),
          )
        ]
    | inr one ↦ (
      suc (2 * i),
      rw one refl,
      h,
      omega arith,
      omega arith,
      children_least (time pq) n i (time pq (suc (2 * i))) (omega arith)
          (λ q. ground (arith, one, q)),
    )
  ]

  -- The loop ended at its start with the same entries, or below it.
  abbrev pub Downs : List (Entry K) → ℕ → ℕ → Option (List (Entry K) × ℕ) → Type 0
  Downs pq i n r =
      (s : List (Entry K)) × (j : ℕ) × (r ≡ some (s, j))
      × Shuffled pq s
      × ((k : ℕ) → n ≤ k → get_elem? s k ≡ get_elem? pq k)
      × (((j ≡ i) × (s ≡ pq) × LeadsChildren n (time pq) i)
          ⊎ ((i < j) × (Around n (time pq) i → IsOrdered n (time s))))

  -- A round of `down` before the loop goes on from the child.
  sunk-Downs :
      (pq s : List (Entry K)) (i c n : ℕ) (r : Option (List (Entry K) × ℕ))
      → Swaps pq i c s
      → i < c
      → c < n
      → (Around n (time pq) i → Sinks n (time s) c)
      → Downs s c n r
      → Downs pq i n r
  sunk-Downs pq s i c n r sw ic cn sinks (t, j, e, m, above, stop) = (
    t,
    j,
    e,
    Shuffled-trans pq s t sw.shuffled m,
    λ a h. above a h ∙ sw.others a (omega (arith, h, ic, cn)) (omega (arith, h, cn)),
    inr (elim stop [
      | inl (ej, es, lead) ↦
          (omega (arith, ej, ic), λ a. rw es (Sinks-IsOrdered n (time s) c (sinks a) lead))
      | inr (cj, o) ↦ (omega (arith, cj, ic), λ a. o (sinks a).0)
    ]),
  )

  pub down_from-Downs :
      (fuel : ℕ) (pq : List (Entry K)) (i n : ℕ)
      → n ≤ length pq
      → i ≤ n
      → n < i + fuel
      → Downs pq i n (down_from fuel pq i n)
  unfolding down_from
  down_from-Downs zero pq i n l m f = absurd (omega (arith, m, f))
  down_from-Downs (suc fuel) pq i n l m f = elim (Bool-cases (leb n (suc (2 * i)))) [
    | inl leaf ↦ rw leaf (
      pq,
      i,
      refl,
      Shuffled-refl pq,
      λ k h. refl,
      inl (refl, refl, λ k p h q. absurd (ground (arith, leaf, p, h, q))),
    )
    | inr inner ↦
        let (c, e, cn, ic, pc, least) = child-least pq i n (ground (arith, inner)) l in
        let inside : c < length pq = omega (arith, cn, l) in
        let here : i < length pq = omega (arith, inside, ic) in
        elim (Bool-cases (ltb (time pq c) (time pq i))) [
          | inr late ↦
              rw (inner, e, less-time pq c i inside here, late)
                (
                  pq,
                  i,
                  refl,
                  Shuffled-refl pq,
                  λ k h. refl,
                  inl (refl, refl, λ k p h q. ground (arith, late, least k p h q)),
                )
          | inl early ↦
              let (s, g, sw) = swap-Swaps pq i c here inside in
              let k = sw.shuffled in
              let below =
                down_from-Downs fuel s c n (omega (arith, k.same_length, l)) (omega (arith, cn))
                  (omega (arith, ic, f)) in
              let sinks =
                down-Sinks n (time pq) (time s) i c (omega (arith, ic)) cn pc sw.exchanges
                  (ground (arith, early)) least in
              rw (inner, e, less-time pq c i inside here, early, g)
                (sunk-Downs pq s i c n _ sw ic cn sinks below)
        ]
  ]
