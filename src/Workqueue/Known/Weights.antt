-- ===== src/Workqueue/Known/Weights.antt =====
-- pkg/utils/workqueue/helper.go: what the entries of an item weigh.
use k8s_controller_the_hard.Prelude.Places.{total, get_elem?-total, get_elem?}
use k8s_controller_the_hard.Prelude.{
  ℕ, suc, ◌+◌, ◌≤◌, ◌<◌, ◌≡◌, refl, ap, Option, none, some, List, [], ◌∷◌, ite, if_pos, if_neg,
  arith, ◌==◌, if◌then◌else◌,
}
use k8s_controller_the_hard.Prelude.GoMap
use k8s_controller_the_hard.Prelude.GoMap.{GoMap}
use k8s_controller_the_hard.Workqueue.PriorityQueue.{Entry}
use k8s_controller_the_hard.Workqueue.PriorityQueue.Places.{weight, weigh}
use k8s_controller_the_hard.Workqueue.Known.{find_place}

-- All that an item weighs is the weight of its known time.
abbrev pub known_weight : (ℕ → ℕ) → Option ℕ → ℕ
known_weight w none = 0
known_weight w (some t) = w t

abbrev is_at : ℕ → ℕ → ℕ
is_at t u = if u == t then 1 else 0

known_at : (o : Option ℕ) (t : ℕ) → ((w : ℕ → ℕ) → w t ≤ known_weight w o) → o ≡ some t
known_at none t h = absurd (omega (arith, h (λ u. 1)))
known_at (some u) t h = ap some (ground (arith, h (is_at t)))

pub ite_same : {A : Type 0} (d : Dec A) (n : ℕ) → ite d n n ≡ n
ite_same (yes p) n = refl
ite_same (no p) n = refl

module _ {K : Type 0} (dec : Discrete K) where
  -- The weight of the time, for the entries of this item.
  abbrev pub only : K → (ℕ → ℕ) → K → ℕ → ℕ
  only x w k t = ite (dec k x) (w t) 0

  -- What is found is an entry of the item, and there is one where the item weighs something.
  pub find_place-some :
      (pq : List (Entry K)) (x : K) (w : ℕ → ℕ)
      → 0 < weigh (only x w) pq
      → (i : ℕ) × (e : Entry K) × (find_place dec pq x ≡ some i)
        × (get_elem? pq i ≡ some e)
        × (e.entry_data ≡ x)
  unfolding total find_place get_elem?
  find_place-some [] x w h = ground (arith, h)
  find_place-some (e ∷ es) x w h = elim (dec e.entry_data x) [
    | yes p ↦ (0, e, rw (if_pos _ p) refl, refl, p)
    | no n ↦
        let (i, a, f, g, p) =
          find_place-some es x w
            (omega (arith, h, if_neg (dec e.entry_data x) n (w e.ready_at) 0)) in
        (suc i, a, rw (if_neg _ n, f) refl, g, p)
  ]

  only_self : (w : ℕ → ℕ) (e : Entry K) → weight (only e.entry_data w) e ≡ w e.ready_at
  only_self w e = if_pos (dec e.entry_data e.entry_data) refl _ _

  -- The time of an entry is the one that is known.
  pub known_time :
      (pq : List (Entry K)) (i : ℕ) (e : Entry K) (o : Option ℕ)
      → ((w : ℕ → ℕ) → weigh (only e.entry_data w) pq ≡ known_weight w o)
      → get_elem? pq i ≡ some e
      → o ≡ some e.ready_at
  known_time pq i e o h g = known_at o e.ready_at (λ w.
      omega (arith, get_elem?-total (weight (only e.entry_data w)) pq i e g, only_self w e, h w))

  -- An item whose time is set, or which is forgotten, weighs what this time does, and the other
  -- items what they did.
  pub replaced_weight :
      (times : GoMap K ℕ) (k x : K) (o : Option ℕ) (w : ℕ → ℕ) (n m : ℕ) (d : Dec (k ≡ x))
      → n + ite d (known_weight w (GoMap.get dec times k)) 0 ≡ m + ite d (known_weight w o) 0
      → m ≡ known_weight w (GoMap.get dec times x)
      → n ≡ known_weight w (ite d o (GoMap.get dec times x))
  replaced_weight times k x o w n m (yes p) h e =
      omega (arith, h, e, ap (λ y. known_weight w (GoMap.get dec times y)) p)
  replaced_weight times k x o w n m (no p) h e = omega (arith, h, e)
