-- ===== src/Workqueue/PriorityQueue/Order.antt =====
-- The order of container/heap, of the time that stands at each place: no place is earlier than its
-- parent, and what a swap of `up` or `down` does to this.
use k8s_controller_the_hard.Prelude.{
  ℕ, zero, suc, ◌-◌, ◌*◌, ◌/◌, ◌≤◌, ◌<◌, ◌≡◌, ◌≢◌, inl, inr, ◌==◌, arith, Bool-cases,
}

abbrev pub parent : ℕ → ℕ
parent k = (k - 1) / 2

-- `f` before the times of two places are exchanged, and `g` after.
pub record Exchanges (f g : ℕ → ℕ) (i j : ℕ) : Type 0 where
  pub first : g i ≡ f j
  pub second : g j ≡ f i
  pub others : (k : ℕ) → k ≢ i → k ≢ j → g k ≡ f k

module _ (n : ℕ) (f : ℕ → ℕ) where
  abbrev pub IsOrdered : Type 0
  IsOrdered = (k : ℕ) → 0 < k → k < n → f (parent k) ≤ f k

  -- The children of a place are not before its parent.
  abbrev pub IsBridged : ℕ → Type 0
  IsBridged j = (k : ℕ) → 0 < j → 0 < k → k < n → parent k ≡ j → f (parent j) ≤ f k

  -- The children of a place are not before it.
  abbrev pub LeadsChildren : ℕ → Type 0
  LeadsChildren j = (k : ℕ) → 0 < k → k < n → parent k ≡ j → f j ≤ f k

  -- The order, except between the place and its parent.
  pub record Rises (j : ℕ) : Type 0 where
    pub bridged : IsBridged j
    pub rest : (k : ℕ) → 0 < k → k < n → k ≢ j → f (parent k) ≤ f k

  -- The order, except between the place and its parent or its children.
  pub record Around (j : ℕ) : Type 0 where
    pub bridged : IsBridged j
    pub rest : (k : ℕ) → 0 < k → k < n → k ≢ j → parent k ≢ j → f (parent k) ≤ f k

  -- The order, except between the place and its children.
  abbrev pub Sinks : ℕ → Type 0
  Sinks j = Around j × (0 < j → f (parent j) ≤ f j)

  pub Around-Rises : (j : ℕ) → Around j → LeadsChildren j → Rises j
  Around-Rises j a lead = record {
    bridged = a.bridged;
    rest = λ k p h d. elim (Bool-cases (parent k == j)) [
      | inl e ↦ ground (arith, lead k p h (ground (arith, e)), e)
      | inr e ↦ a.rest k p h d (ground (arith, e))
    ];
  }

  pub Sinks-IsOrdered : (j : ℕ) → Sinks j → LeadsChildren j → IsOrdered
  Sinks-IsOrdered j (a, up) lead k p h = elim (Bool-cases (k == j)) [
    | inl e ↦ ground (arith, up, e)
    | inr e ↦ (Around-Rises j a lead).rest k p h (ground (arith, e))
  ]

  pub Rises-IsOrdered : (j : ℕ) → Rises j → f (parent j) ≤ f j → IsOrdered
  Rises-IsOrdered j r up k p h = elim (Bool-cases (k == j)) [
    | inl e ↦ ground (arith, up, e)
    | inr e ↦ r.rest k p h (ground (arith, e))
  ]

  -- The first place is a least one.
  pub IsOrdered-first : IsOrdered → (fuel k : ℕ) → k < fuel → k < n → f 0 ≤ f k
  IsOrdered-first o zero k l h = ground (arith, l)
  IsOrdered-first o (suc fuel) zero l h = omega arith
  IsOrdered-first o (suc fuel) (suc k) l h = omega (
    arith,
    o (suc k) (omega arith) h,
    IsOrdered-first o fuel (parent (suc k)) (omega (arith, l)) (omega (arith, h)),
  )

-- What is not later than the two children of a place is not later than any child in range.
pub children_least :
    (f : ℕ → ℕ) (n i t : ℕ)
    → t ≤ f (suc (2 * i))
    → (suc (suc (2 * i)) < n → t ≤ f (suc (suc (2 * i))))
    → (k : ℕ) → 0 < k
    → k < n
    → parent k ≡ i
    → t ≤ f k
children_least f n i t one two k p h q = elim (Bool-cases (k == suc (2 * i))) [
  | inl e ↦ ground (arith, e, one)
  | inr e ↦ let s : k ≡ suc (suc (2 * i)) = ground (arith, e, p, q) in ground (arith, s, h, two)
]

module _ (n : ℕ) (f g : ℕ → ℕ) where
  -- A round of `up`: the order is now broken at the parent only.
  pub up-Rises :
      (j : ℕ)
      → 0 < j
      → j < n
      → Exchanges f g (parent j) j
      → f j < f (parent j)
      → Rises n f j
      → Rises n g (parent j)
  up-Rises j p h e l r = record {
    bridged = λ k i kp kn c. elim (Bool-cases (k == j)) [
      | inl q ↦ ground (
        arith,
        q,
        e.second,
        e.others (parent (parent j)) (omega (arith, i)) (omega (arith, i)),
        r.rest (parent j) i (omega (arith, h)) (omega (arith, p)),
      )
      | inr q ↦ ground (
        arith,
        q,
        e.others k (ground (arith, q, c)) (ground (arith, q)),
        e.others (parent (parent j)) (omega (arith, i)) (omega (arith, i)),
        r.rest (parent j) i (omega (arith, h)) (omega (arith, p)),
        r.rest k kp kn (ground (arith, q)),
      )
    ];
    rest = λ k kp kn d. elim (Bool-cases (k == j)) [
      | inl q ↦ ground (arith, q, e.first, e.second, l)
      | inr q ↦ elim (Bool-cases (parent k == j)) [
        | inl c ↦ ground (
          arith,
          q,
          c,
          e.second,
          e.others k d (ground (arith, q)),
          r.bridged k p kp kn (ground (arith, c)),
        )
        | inr c ↦ elim (Bool-cases (parent k == parent j)) [
          | inl b ↦ ground (
            arith,
            q,
            b,
            e.first,
            l,
            e.others k d (ground (arith, q)),
            r.rest k kp kn (ground (arith, q)),
          )
          | inr b ↦ ground (
            arith,
            q,
            e.others k d (ground (arith, q)),
            e.others (parent k) (ground (arith, b)) (ground (arith, c)),
            r.rest k kp kn (ground (arith, q)),
          )
        ]
      ]
    ];
  }

  -- A round of `down` to a least child: the order is now broken at the child only.
  pub down-Sinks :
      (i c : ℕ)
      → 0 < c
      → c < n
      → parent c ≡ i
      → Exchanges f g i c
      → f c < f i
      → ((k : ℕ) → 0 < k → k < n → parent k ≡ i → f c ≤ f k)
      → Around n f i
      → Sinks n g c
  down-Sinks i c p h m e l lead a = (
    record {
      bridged = λ k cp kp kn q. ground (
        arith,
        m,
        q,
        e.first,
        e.others k (ground (arith, m, q)) (ground (arith, q)),
        a.rest k kp kn (ground (arith, m, q)) (ground (arith, m, q)),
      );
      rest = λ k kp kn d q. elim (Bool-cases (k == i)) [
        | inl s ↦ ground (
          arith,
          s,
          m,
          e.first,
          e.others (parent i) (ground (arith, s)) (ground (arith, m)),
          a.bridged c (ground (arith, s)) p h m,
        )
        | inr s ↦ elim (Bool-cases (parent k == i)) [
          | inl b ↦ ground (
            arith,
            b,
            e.first,
            e.others k (ground (arith, s)) d,
            lead k kp kn (ground (arith, b)),
          )
          | inr b ↦ ground (
            arith,
            e.others k (ground (arith, s)) d,
            e.others (parent k) (ground (arith, b)) q,
            a.rest k kp kn (ground (arith, s)) (ground (arith, b)),
          )
        ]
      ];
    },
    λ cp. ground (arith, m, e.first, e.second, l),
  )

  -- After one place has got another time, only it may be out of order.
  pub changed-Around :
      (i : ℕ) → IsOrdered n f → ((k : ℕ) → k ≢ i → g k ≡ f k) → i < n → Around n g i
  changed-Around i o same h = record {
    bridged = λ k p kp kn q. omega (
      arith,
      o i p h,
      rw q at (o k kp kn),
      same (parent i) (omega (arith, p)),
      same k (omega (arith, q, kp)),
    );
    rest = λ k kp kn d q. omega (arith, o k kp kn, same k d, same (parent k) q);
  }
