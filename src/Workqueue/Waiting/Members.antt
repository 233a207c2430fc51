-- ===== src/Workqueue/Waiting/Members.antt =====
-- pkg/utils/workqueue/helper.go: the waiting entries of a queue, by what they weigh.
use mathlib.Core.List.{Memᴰ}
use k8s_controller_the_hard.Prelude.Places.{total, get_elem?}
use k8s_controller_the_hard.Prelude.{
  ℕ, suc, ◌<◌, ◌≡◌, refl, sym, ap, subst, ◌∙◌, inl, inr, true, List, [], ◌∷◌, map, length, ite,
  if_pos, arith, Bool-cases, ◌==◌, if◌then◌else◌,
}
use k8s_controller_the_hard.Workqueue.Queue.{WaitFor}
use k8s_controller_the_hard.Workqueue.PriorityQueue.{Entry}
use k8s_controller_the_hard.Workqueue.PriorityQueue.Places.{weight, weigh, time}
use k8s_controller_the_hard.Workqueue.Waiting.Ready.{no_members}

module _ {K : Type 0} where
  abbrev waits : K → ℕ → WaitFor K
  waits k t = record { item = k; ready_at = t }

  -- An entry without its index.
  abbrev pub view : Entry K → WaitFor K
  view e = waits e.entry_data e.ready_at

  pub weigh_one : (pq : List (Entry K)) → weigh (λ k t. 1) pq ≡ length pq
  unfolding total
  weigh_one [] = refl
  weigh_one (x ∷ xs) = omega (arith, weigh_one xs)

  -- The time of a member stands at a place.
  pub member_time :
      (x : WaitFor K) (pq : List (Entry K))
      → Memᴰ x (map view pq)
      → (k : ℕ) × (k < length pq) × (time pq k ≡ x.ready_at)
  unfolding get_elem?
  member_time x [] m = absurd (no_members m)
  member_time x (e ∷ es) m = elim m [
    | Memᴰ.head p ↦ (0, omega arith, sym (ap WaitFor.ready_at p))
    | Memᴰ.tail n ↦ let (k, h, p) = member_time x es n in (suc k, omega (arith, h), p)
  ]

module _ {K : Type 0} (dec : Discrete K) where
  -- One for each entry that is seen as this one.
  abbrev pub is_entry : WaitFor K → K → ℕ → ℕ
  is_entry x k t = ite (dec k x.item) (if t == x.ready_at then 1 else 0) 0

  is_entry_self : (x : WaitFor K) (e : Entry K) → x ≡ view e → weight (is_entry x) e ≡ 1
  is_entry_self x e p =
      let same : e.ready_at == e.ready_at ≡ true = ground arith in
      let own : weight (is_entry (view e)) e ≡ 1 =
        if_pos (dec e.entry_data e.entry_data) refl _ _ ∙ ap (λ b. if b then 1 else 0) same in
      subst (λ w. weight (is_entry w) e ≡ 1) (sym p) own

  pub is_entry_view :
      (x : WaitFor K) (e : Entry K) (d : Dec (e.entry_data ≡ x.item))
      → 0 < ite d (if e.ready_at == x.ready_at then 1 else 0) 0
      → x ≡ view e
  is_entry_view x e (no n) h = absurd (omega (arith, h))
  is_entry_view x e (yes p) h = elim (Bool-cases (e.ready_at == x.ready_at)) [
    | inr n ↦ absurd (omega (arith, rw n at h))
    | inl s ↦
        let t : x.ready_at ≡ e.ready_at = ground (arith, s) in
        ap (λ k. waits k x.ready_at) (sym p) ∙ ap (waits e.entry_data) t
  ]

  pub member_weight :
      (x : WaitFor K) (pq : List (Entry K)) → Memᴰ x (map view pq) → 0 < weigh (is_entry x) pq
  unfolding total
  member_weight x [] m = absurd (no_members m)
  member_weight x (e ∷ es) m = elim m [
    | Memᴰ.head p ↦ omega (arith, is_entry_self x e p)
    | Memᴰ.tail n ↦ omega (arith, member_weight x es n)
  ]

  pub weight_member :
      (x : WaitFor K) (pq : List (Entry K)) → 0 < weigh (is_entry x) pq → Memᴰ x (map view pq)
  unfolding total
  weight_member x [] h = absurd (omega (arith, h))
  weight_member x (e ∷ es) h = elim (Bool-cases (weight (is_entry x) e == 0)) [
    | inl z ↦ Memᴰ.tail (weight_member x es (ground (arith, z, h)))
    | inr n ↦ Memᴰ.head (is_entry_view x e (dec e.entry_data x.item) (ground (arith, n)))
  ]
