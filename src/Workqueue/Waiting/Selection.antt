-- ===== src/Workqueue/Waiting/Selection.antt =====
-- A list of entries from which a least one is selected, as the heap of the waiting loop.
use mathlib.Core.List.{Memᴰ}
use k8s_controller_the_hard.Prelude.{
  ℕ, suc, ◌≤◌, ◌≡◌, refl, sym, subst, ap, ◌⊎◌, inl, inr, Option, none, some, List, [], ◌∷◌,
  if◌then◌else◌, leb, length, arith, Bool-cases, ite,
}
use k8s_controller_the_hard.Workqueue.Queue.{WaitFor}
use k8s_controller_the_hard.Workqueue.Waiting.{Heap}
use k8s_controller_the_hard.Workqueue.Waiting.Ready.{IsHeap, no_members}

module _ {K : Type 0} where
  -- Puts the earlier of the two first.
  abbrev swap : WaitFor K → WaitFor K × List (WaitFor K) → WaitFor K × List (WaitFor K)
  swap x (m, rest) = if leb x.ready_at m.ready_at then (x, m ∷ rest) else (m, x ∷ rest)

  -- A least entry and the others.
  unfoldable pub select : WaitFor K → List (WaitFor K) → WaitFor K × List (WaitFor K)
  select x [] = (x, [])
  select x (y ∷ ys) = swap x (select y ys)

  -- The pair holds the entries of the list, the least of them first.
  record Selects (xs : List (WaitFor K)) (p : WaitFor K × List (WaitFor K)) : Type 0 where
    least : (z : WaitFor K) → Memᴰ z xs → p.0.ready_at ≤ z.ready_at
    cases : (z : WaitFor K) → Memᴰ z xs → (z ≡ p.0) ⊎ Memᴰ z p.1
    member : Memᴰ p.0 xs
    keeps : (z : WaitFor K) → Memᴰ z p.1 → Memᴰ z xs
    shorter : suc (length p.1) ≡ length xs

  below : (e x z : WaitFor K) → e.ready_at ≤ x.ready_at → z ≡ x → e.ready_at ≤ z.ready_at
  below e x z h p = subst (λ w. e.ready_at ≤ w.ready_at) (sym p) h

  one-Selects : (x : WaitFor K) → Selects (x ∷ []) (x, [])
  one-Selects x = record {
    least = λ z m. elim m [
      | Memᴰ.head e ↦ below x x z (omega arith) e
      | Memᴰ.tail n ↦ absurd (no_members n)
    ];
    cases = λ z m. elim m [ Memᴰ.head e ↦ inl e | Memᴰ.tail n ↦ inr n ];
    member = Memᴰ.head refl;
    keeps = λ z m. Memᴰ.tail m;
    shorter = refl;
  }

  first-Selects :
      (x m : WaitFor K) (rest ys : List (WaitFor K))
      → x.ready_at ≤ m.ready_at
      → Selects ys (m, rest)
      → Selects (x ∷ ys) (x, m ∷ rest)
  first-Selects x m rest ys h s = record {
    least = λ z i. elim i [
      | Memᴰ.head e ↦ below x x z (omega arith) e
      | Memᴰ.tail n ↦ omega (arith, h, s.least z n)
    ];
    cases = λ z i. elim i [
      | Memᴰ.head e ↦ inl e
      | Memᴰ.tail n ↦ elim (s.cases z n) [ inl e ↦ inr (Memᴰ.head e) | inr w ↦ inr (Memᴰ.tail w) ]
    ];
    member = Memᴰ.head refl;
    keeps = λ z i. elim i [
      | Memᴰ.head e ↦ Memᴰ.tail (subst (λ w. Memᴰ w ys) (sym e) s.member)
      | Memᴰ.tail n ↦ Memᴰ.tail (s.keeps z n)
    ];
    shorter = ap suc s.shorter;
  }

  second-Selects :
      (x m : WaitFor K) (rest ys : List (WaitFor K))
      → m.ready_at ≤ x.ready_at
      → Selects ys (m, rest)
      → Selects (x ∷ ys) (m, x ∷ rest)
  second-Selects x m rest ys h s = record {
    least = λ z i. elim i [ Memᴰ.head e ↦ below m x z h e | Memᴰ.tail n ↦ s.least z n ];
    cases = λ z i. elim i [
      | Memᴰ.head e ↦ inr (Memᴰ.head e)
      | Memᴰ.tail n ↦ elim (s.cases z n) [ inl e ↦ inl e | inr w ↦ inr (Memᴰ.tail w) ]
    ];
    member = Memᴰ.tail s.member;
    keeps = λ z i. elim i [ Memᴰ.head e ↦ Memᴰ.head e | Memᴰ.tail n ↦ Memᴰ.tail (s.keeps z n) ];
    shorter = ap suc s.shorter;
  }

  swap-Selects :
      (x : WaitFor K) (ys : List (WaitFor K)) (p : WaitFor K × List (WaitFor K))
      → Selects ys p
      → Selects (x ∷ ys) (swap x p)
  swap-Selects x ys (m, rest) s = elim (Bool-cases (leb x.ready_at m.ready_at)) [
    | inl le ↦ rw le (first-Selects x m rest ys (ground arith) s)
    | inr gt ↦ rw gt (second-Selects x m rest ys (ground arith) s)
  ]

  select-Selects : (x : WaitFor K) (xs : List (WaitFor K)) → Selects (x ∷ xs) (select x xs)
  unfolding select
  select-Selects x [] = one-Selects x
  select-Selects x (y ∷ ys) = swap-Selects x (y ∷ ys) (select y ys) (select-Selects y ys)

  abbrev peek_list : List (WaitFor K) → Option (WaitFor K)
  peek_list [] = none
  peek_list (x ∷ xs) = some (select x xs).0

  abbrev pop_list : List (WaitFor K) → List (WaitFor K)
  pop_list [] = []
  pop_list (x ∷ xs) = (select x xs).1

  -- Entries of the item get the time.
  unfoldable pub lower_list : Discrete K → List (WaitFor K) → K → ℕ → List (WaitFor K)
  lower_list dec [] k t = []
  lower_list dec (x ∷ xs) k t =
      record x { ready_at = ite (dec x.item k) t x.ready_at } ∷ lower_list dec xs k t

  abbrev pub list_heap : Discrete K → Heap K (List (WaitFor K))
  list_heap dec = record {
    entries = λ h. h;
    peek = peek_list;
    popped = peek_list;
    pop = pop_list;
    push = λ h e. e ∷ h;
    lower = λ h k t. lower_list dec h k t;
  }

  some-path : (a b : WaitFor K) → some a ≡ some b → a ≡ b
  some-path a b e = cc

  peeked : (h : List (WaitFor K)) (e : WaitFor K) → peek_list h ≡ some e → Selects h (e, pop_list h)
  peeked [] e p = cc
  peeked (x ∷ xs) e p =
      subst (λ w. Selects (x ∷ xs) (w, (select x xs).1)) (some-path _ _ p) (select-Selects x xs)

  peek-empty : (h : List (WaitFor K)) → peek_list h ≡ none → h ≡ []
  peek-empty [] p = refl
  peek-empty (x ∷ xs) p = cc

  pub list_heap-IsHeap : (dec : Discrete K) → IsHeap (list_heap dec)
  list_heap-IsHeap dec = record {
    empty = peek-empty;
    first = λ h e p. (peeked h e p).member;
    popped_first = λ h e p. p;
    least = λ h e x p m. (peeked h e p).least x m;
    pop_cases = λ h e x p m. (peeked h e p).cases x m;
    pop_keeps = λ h e x p m. (peeked h e p).keeps x m;
    pop_shorter = λ h e p. (peeked h e p).shorter;
  }
