-- ===== src/Workqueue/PriorityQueue/Places.antt =====
-- pkg/utils/workqueue/helper.go: reading, writing and exchanging entries by their places, and what an
-- exchange leaves as it is.
use k8s_controller_the_hard.Prelude.Places.{
  get_elem?, get_elem?-set_elem, get_elem?-set_other, get_elem?-set_same, get_elem?-some,
  length-set_elem, set_elem, total, total-set_elem,
}
use k8s_controller_the_hard.Prelude.{
  ℕ, ◌<◌, ◌≡◌, ◌≢◌, refl, ap, ◌∙◌, inl, inr, Option, none, some, List, ltb, ◌==◌, length, arith,
  Bool-cases, sym,
}
use k8s_controller_the_hard.Prelude.Int.{pos}
use k8s_controller_the_hard.Workqueue.PriorityQueue.{Entry, less, moved, swap, with_result}
use k8s_controller_the_hard.Workqueue.PriorityQueue.Order.{Exchanges}

module _ {K : Type 0} where
  abbrev pub time_of : Option (Entry K) → ℕ
  time_of none = 0
  time_of (some e) = e.ready_at

  -- The time at a place.
  abbrev pub time : List (Entry K) → ℕ → ℕ
  time pq k = time_of (get_elem? pq k)

  abbrev pub weight : (K → ℕ → ℕ) → Entry K → ℕ
  weight w e = w e.entry_data e.ready_at

  -- The sum of a weight of the entries, each of which has an item and a time.
  abbrev pub weigh : (K → ℕ → ℕ) → List (Entry K) → ℕ
  weigh w pq = total (weight w) pq

  abbrev pub IsIndexed : List (Entry K) → Type 0
  IsIndexed pq = (k : ℕ) (e : Entry K) → get_elem? pq k ≡ some e → e.index ≡ pos k

  set-IsIndexed :
      (pq : List (Entry K)) (i : ℕ) (e : Entry K)
      → IsIndexed pq
      → IsIndexed (set_elem pq i (moved e i))
  set-IsIndexed pq i e v k b h = elim (get_elem?-set_elem pq i k (moved e i) b h) [
    | inl (p, q) ↦ rw (q, p) refl
    | inr (n, p) ↦ v k b p
  ]

  -- Another time leaves the index as it is.
  pub retimed-IsIndexed :
      (pq : List (Entry K)) (i : ℕ) (e : Entry K) (t : ℕ)
      → IsIndexed pq
      → get_elem? pq i ≡ some e
      → IsIndexed (set_elem pq i (record e { ready_at = t }))
  retimed-IsIndexed pq i e t v h k b g =
      elim (get_elem?-set_elem pq i k (record e { ready_at = t }) b g) [
        | inl (p, q) ↦ rw (q, p) (v i e h)
        | inr (n, p) ↦ v k b p
      ]

  -- The same entries, in other places.
  pub record Shuffled (xs ys : List (Entry K)) : Type 0 where
    pub same_length : length ys ≡ length xs
    pub indexed : IsIndexed xs → IsIndexed ys
    pub same_weight : (w : K → ℕ → ℕ) → weigh w ys ≡ weigh w xs

  pub Shuffled-refl : (xs : List (Entry K)) → Shuffled xs xs
  Shuffled-refl xs = record { same_length = refl; indexed = λ v. v; same_weight = λ w. refl }

  pub Shuffled-trans :
      (xs ys zs : List (Entry K)) → Shuffled xs ys → Shuffled ys zs → Shuffled xs zs
  Shuffled-trans xs ys zs a b = record {
    same_length = b.same_length ∙ a.same_length;
    indexed = λ v. b.indexed (a.indexed v);
    same_weight = λ w. b.same_weight w ∙ a.same_weight w;
  }

  abbrev swapped : List (Entry K) → ℕ → ℕ → Entry K → Entry K → List (Entry K)
  swapped pq i j a b = set_elem (set_elem pq i (moved b i)) j (moved a j)

  -- The entry that the second write replaces.
  between :
      (pq : List (Entry K)) (i j : ℕ) (a b : Entry K)
      → get_elem? pq i ≡ some a
      → get_elem? pq j ≡ some b
      → i < length pq
      → (c : Entry K) × (get_elem? (set_elem pq i (moved b i)) j ≡ some c)
        × ((w : K → ℕ → ℕ) → weight w c ≡ weight w b)
  between pq i j a b ea eb h = elim (Bool-cases (j == i)) [
    | inl e ↦
        let p : j ≡ i = ground (arith, e) in
        (moved b i, rw p (get_elem?-set_same pq i (moved b i) h), λ w. refl)
    | inr e ↦ (b, get_elem?-set_other pq i j (moved b i) (ground (arith, e)) ∙ eb, λ w. refl)
  ]

  swapped-Shuffled :
      (pq : List (Entry K)) (i j : ℕ) (a b : Entry K)
      → get_elem? pq i ≡ some a
      → get_elem? pq j ≡ some b
      → i < length pq
      → Shuffled pq (swapped pq i j a b)
  swapped-Shuffled pq i j a b ea eb h =
      let one = set_elem pq i (moved b i) in
      let (c, ec, wc) = between pq i j a b ea eb h in
      record {
        same_length = length-set_elem one j (moved a j) ∙ length-set_elem pq i (moved b i);
        indexed = λ v. set-IsIndexed one j a (set-IsIndexed pq i b v);
        same_weight = λ w. omega (
          arith,
          total-set_elem (weight w) one j (moved a j) c ec,
          total-set_elem (weight w) pq i (moved b i) a ea,
          wc w,
        );
      }

  swapped-Exchanges :
      (pq : List (Entry K)) (i j : ℕ) (a b : Entry K)
      → get_elem? pq i ≡ some a
      → get_elem? pq j ≡ some b
      → i < length pq
      → j < length pq
      → Exchanges (time pq) (time (swapped pq i j a b)) i j
  swapped-Exchanges pq i j a b ea eb hi hj =
      let one = set_elem pq i (moved b i) in
      let written =
        get_elem?-set_same one j (moved a j)
          (omega (arith, hj, length-set_elem pq i (moved b i))) in
      let second = ap time_of written ∙ sym (ap time_of ea) in
      record {
        first = elim (Bool-cases (i == j)) [
          | inl e ↦
              let p : i ≡ j = ground (arith, e) in
              ap (time (swapped pq i j a b)) p ∙ second ∙ ap (time pq) p
          | inr e ↦
              ap time_of (get_elem?-set_other one j i (moved a j) (ground (arith, e)))
              ∙ ap time_of (get_elem?-set_same pq i (moved b i) hi)
              ∙ sym (ap time_of eb)
        ];
        second = second;
        others = λ k ni nj.
            ap time_of (get_elem?-set_other one j k (moved a j) nj)
            ∙ ap time_of (get_elem?-set_other pq i k (moved b i) ni);
      }

  -- `s` is `pq` after an exchange of two places.
  pub record Swaps (pq : List (Entry K)) (i j : ℕ) (s : List (Entry K)) : Type 0 where
    pub shuffled : Shuffled pq s
    pub exchanges : Exchanges (time pq) (time s) i j
    pub others : (k : ℕ) → k ≢ i → k ≢ j → get_elem? s k ≡ get_elem? pq k
    pub second : (a : Entry K) → get_elem? pq i ≡ some a → get_elem? s j ≡ some (moved a j)

  pub swap-Swaps :
      (pq : List (Entry K)) (i j : ℕ)
      → i < length pq
      → j < length pq
      → (s : List (Entry K)) × (swap pq i j ≡ some s) × Swaps pq i j s
  unfolding swap
  swap-Swaps pq i j hi hj =
      let (a, ea) = get_elem?-some pq i hi in
      let (b, eb) = get_elem?-some pq j hj in
      let one = set_elem pq i (moved b i) in
      (
        swapped pq i j a b,
        rw (ea, eb) refl,
        record {
          shuffled = swapped-Shuffled pq i j a b ea eb hi;
          exchanges = swapped-Exchanges pq i j a b ea eb hi hj;
          others = λ k ni nj.
              get_elem?-set_other one j k (moved a j) nj
              ∙ get_elem?-set_other pq i k (moved b i) ni;
          second = λ c ec.
              get_elem?-set_same one j (moved a j)
                (omega (arith, hj, length-set_elem pq i (moved b i)))
              ∙ ap (λ o. with_result o (λ z. some (moved z j))) (sym ea ∙ ec);
        },
      )

  pub less-time :
      (pq : List (Entry K)) (i j : ℕ)
      → i < length pq
      → j < length pq
      → less pq i j ≡ some (ltb (time pq i) (time pq j))
  unfolding less
  less-time pq i j hi hj =
      let (a, ea) = get_elem?-some pq i hi in
      let (b, eb) = get_elem?-some pq j hj in rw (ea, eb) refl
