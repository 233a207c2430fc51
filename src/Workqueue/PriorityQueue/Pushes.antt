-- ===== src/Workqueue/PriorityQueue/Pushes.antt =====
-- pkg/utils/workqueue/helper.go: `heap.Push` on the queue of waiting entries.
use k8s_controller_the_hard.Prelude.Places.{total, get_elem?}
use k8s_controller_the_hard.Prelude.{
  ℕ, zero, suc, ◌+◌, ◌<◌, ◌≡◌, refl, ap, ◌∙◌, ◌⊎◌, inl, inr, some, List, [], ◌∷◌, ◌++◌, length,
  length-append, arith,
}
use k8s_controller_the_hard.Workqueue.PriorityQueue.{Entry, moved, push_entry, heap_push}
use k8s_controller_the_hard.Workqueue.PriorityQueue.Order.{IsOrdered, Rises, parent}
use k8s_controller_the_hard.Workqueue.PriorityQueue.Places.{time, time_of, weight, weigh, IsIndexed}
use k8s_controller_the_hard.Workqueue.PriorityQueue.Sifting.{up-Ups}

module _ {A : Type 0} where
  get_elem?-append :
      (xs : List A) (k : ℕ) (a b : A)
      → get_elem? (xs ++ a ∷ []) k ≡ some b
      → (get_elem? xs k ≡ some b) ⊎ ((k ≡ length xs) × (b ≡ a))
  unfolding get_elem?
  get_elem?-append [] zero a b h = inr (refl, cc)
  get_elem?-append [] (suc k) a b h = cc
  get_elem?-append (x ∷ xs) zero a b h = inl h
  get_elem?-append (x ∷ xs) (suc k) a b h = elim (get_elem?-append xs k a b h) [
    | inl p ↦ inl p
    | inr (e, p) ↦ inr (ap suc e, p)
  ]

  get_elem?-append_lt :
      (xs : List A) (k : ℕ) (a : A) → k < length xs → get_elem? (xs ++ a ∷ []) k ≡ get_elem? xs k
  unfolding get_elem?
  get_elem?-append_lt [] k a h = ground (arith, h)
  get_elem?-append_lt (x ∷ xs) zero a h = refl
  get_elem?-append_lt (x ∷ xs) (suc k) a h = get_elem?-append_lt xs k a (omega (arith, h))

module _ {K : Type 0} where
  weigh-append :
      (w : K → ℕ → ℕ) (pq : List (Entry K)) (e : Entry K)
      → weigh w (pq ++ e ∷ []) ≡ weight w e + weigh w pq
  unfolding total
  weigh-append w [] e = refl
  weigh-append w (x ∷ xs) e = omega (arith, weigh-append w xs e)

  push-IsIndexed : (pq : List (Entry K)) (e : Entry K) → IsIndexed pq → IsIndexed (push_entry pq e)
  unfolding push_entry
  push-IsIndexed pq e v k b h = elim (get_elem?-append pq k (moved e (length pq)) b h) [
    | inl p ↦ v k b p
    | inr (q, p) ↦ rw (p, q) refl
  ]

  length-push_entry :
      (pq : List (Entry K)) (e : Entry K) → length (push_entry pq e) ≡ suc (length pq)
  unfolding push_entry
  length-push_entry pq e = omega (arith, length-append pq (moved e (length pq) ∷ []))

  weigh-push_entry :
      (w : K → ℕ → ℕ) (pq : List (Entry K)) (e : Entry K)
      → weigh w (push_entry pq e) ≡ weight w e + weigh w pq
  unfolding push_entry
  weigh-push_entry w pq e = weigh-append w pq (moved e (length pq))

  -- At the end of the queue only the pushed entry may be before its parent.
  push-Rises :
      (pq : List (Entry K)) (e : Entry K)
      → IsOrdered (length pq) (time pq)
      → Rises (suc (length pq)) (time (push_entry pq e)) (length pq)
  unfolding push_entry
  push-Rises pq e o =
      let same : (k : ℕ) → k < length pq → time (push_entry pq e) k ≡ time pq k =
        λ k h. ap time_of (get_elem?-append_lt pq k (moved e (length pq)) h) in
      record {
        bridged = λ k p kp kn q. absurd (omega (arith, kp, kn, q));
        rest = λ k kp kn d.
            let h : k < length pq = omega (arith, kn, d) in
            omega (arith, same k h, same (parent k) (omega (arith, h)), o k kp h);
      }

  -- The entries with one more.
  pub record Pushed (pq : List (Entry K)) (e : Entry K) (s : List (Entry K)) : Type 0 where
    pub one_more : length s ≡ suc (length pq)
    pub indexed : IsIndexed pq → IsIndexed s
    pub ordered : IsOrdered (length pq) (time pq) → IsOrdered (length s) (time s)
    pub weights : (w : K → ℕ → ℕ) → weigh w s ≡ weight w e + weigh w pq

  pub push-Pushed :
      (pq : List (Entry K)) (e : Entry K)
      → (s : List (Entry K)) × (heap_push pq e ≡ some s) × Pushed pq e s
  unfolding heap_push
  push-Pushed pq e =
      let n = length-push_entry pq e in
      let (s, r, k, o) =
        up-Ups (suc (length pq)) (push_entry pq e) (length pq) (omega (arith, n)) (omega arith) in
      (
        s,
        r,
        record {
          one_more = k.same_length ∙ n;
          indexed = λ v. k.indexed (push-IsIndexed pq e v);
          ordered = λ v. rw k.same_length (o (rw n (push-Rises pq e v)));
          weights = λ w. k.same_weight w ∙ weigh-push_entry w pq e;
        },
      )
