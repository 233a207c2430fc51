-- ===== src/Workqueue/Waiting/Entries.antt =====
-- pkg/utils/workqueue/helper.go: the queue of waiting entries under container/heap, as the heap of the
-- waiting loop. Its calls return, so that a call that fails has no entry here.
use mathlib.Core.List.{Memᴰ}
use k8s_controller_the_hard.Prelude.Places.{get_elem?}
use k8s_controller_the_hard.Prelude.{
  ℕ, suc, ◌≤◌, ◌≡◌, refl, sym, ap, ◌∙◌, ◌⊎◌, inl, inr, Option, none, some, List, [], ◌∷◌, map,
  length, arith, Bool-cases, Option-cases, ◌==◌,
}
use k8s_controller_the_hard.Prelude.Int.{pos}
use k8s_controller_the_hard.Workqueue.Queue.{WaitFor}
use k8s_controller_the_hard.Workqueue.Waiting.{Heap}
use k8s_controller_the_hard.Workqueue.Waiting.Ready.{IsHeap}
use k8s_controller_the_hard.Workqueue.Waiting.Members.{
  view, weigh_one, member_time, is_entry, member_weight, weight_member, is_entry_view,
}
use k8s_controller_the_hard.Workqueue.PriorityQueue.{Entry}
use k8s_controller_the_hard.Workqueue.PriorityQueue.Places.{weight}
use k8s_controller_the_hard.Workqueue.PriorityQueue.Calls.{IsValid, push-Keeps, pop-TakesFirst}
use k8s_controller_the_hard.Workqueue.Known.{find_place}
use k8s_controller_the_hard.Workqueue.Known.Agrees.{set_time-Keeps}

-- A queue with its invariant.
pub record ValidQueue (K : Type 0) : Type 0 where
  pub waiting : List (Entry K)
  pub valid : IsValid waiting

module _ {K : Type 0} where
  abbrev pub peek_view : List (Entry K) → Option (WaitFor K)
  peek_view [] = none
  peek_view (x ∷ xs) = some (view x)

  -- The queue that `heap.Pop` leaves.
  abbrev pub pop_valid : (pq : List (Entry K)) → IsValid pq → ValidQueue K
  pop_valid [] v = record { waiting = []; valid = v }
  pop_valid (x ∷ xs) v = let r = pop-TakesFirst (x ∷ xs) v in record { waiting = r.0; valid = r.3 }

  -- The entry that `heap.Pop` returns.
  abbrev pub popped_valid : (pq : List (Entry K)) → IsValid pq → Option (WaitFor K)
  popped_valid [] v = none
  popped_valid (x ∷ xs) v = let r = pop-TakesFirst (x ∷ xs) v in some (view r.1)

  abbrev pub unplaced_entry : WaitFor K → Entry K
  unplaced_entry e = record { entry_data = e.item; ready_at = e.ready_at; index = pos 0 }

  -- The queue that `heap.Push` leaves.
  abbrev pub push_valid : ValidQueue K → WaitFor K → ValidQueue K
  push_valid q e =
      let r = push-Keeps q.waiting (unplaced_entry e) q.valid in
      record { waiting = r.0; valid = r.2 }

  -- The queue that `heap.Fix` leaves, after the entry at the place got the time.
  abbrev pub set_time_valid :
      (q : ValidQueue K) (i t : ℕ)
      → (get_elem? q.waiting i ≡ none) ⊎ ((e : Entry K) × (get_elem? q.waiting i ≡ some e))
      → ValidQueue K
  set_time_valid q i t (inl h) = q
  set_time_valid q i t (inr (e, h)) =
      let r = set_time-Keeps q.waiting i t e q.valid h in record { waiting = r.0; valid = r.2 }

  abbrev pub lower_valid : ValidQueue K → Option ℕ → ℕ → ValidQueue K
  lower_valid q none t = q
  lower_valid q (some i) t = set_time_valid q i t (Option-cases (get_elem? q.waiting i))

  abbrev pub entry_heap : Discrete K → Heap K (ValidQueue K)
  entry_heap dec = record {
    entries = λ q. map view q.waiting;
    peek = λ q. peek_view q.waiting;
    popped = λ q. popped_valid q.waiting q.valid;
    pop = λ q. pop_valid q.waiting q.valid;
    push = push_valid;
    lower = λ q k t. lower_valid q (find_place dec q.waiting k) t;
  }

  some-path : (a b : WaitFor K) → some a ≡ some b → a ≡ b
  some-path a b e = cc

  peek-empty : (pq : List (Entry K)) → peek_view pq ≡ none → map view pq ≡ []
  peek-empty [] h = refl
  peek-empty (x ∷ xs) h = cc

  peek-least :
      (pq : List (Entry K)) (e x : WaitFor K)
      → IsValid pq
      → peek_view pq ≡ some e
      → Memᴰ x (map view pq)
      → e.ready_at ≤ x.ready_at
  peek-least [] e x v h m = cc
  peek-least (y ∷ ys) e x v h m =
      let (k, l, p) = member_time x (y ∷ ys) m in
      let r = pop-TakesFirst (y ∷ ys) v in
      omega (arith, r.5 k l, p, ap Entry.ready_at r.4, ap WaitFor.ready_at (some-path _ _ h))

  pub popped_valid-first :
      (pq : List (Entry K)) (e : WaitFor K) (v : IsValid pq)
      → peek_view pq ≡ some e
      → popped_valid pq v ≡ some e
  popped_valid-first [] e v h = cc
  popped_valid-first (y ∷ ys) e v h =
      let r = pop-TakesFirst (y ∷ ys) v in ap (λ z. some (view z)) r.4 ∙ h

  peek-first : (pq : List (Entry K)) (e : WaitFor K) → peek_view pq ≡ some e → Memᴰ e (map view pq)
  peek-first [] e h = cc
  peek-first (y ∷ ys) e h = Memᴰ.head (some-path _ _ (sym h))

  length-map : (pq : List (Entry K)) → length (map view pq) ≡ length pq
  length-map [] = refl
  length-map (x ∷ xs) = ap suc (length-map xs)

module _ {K : Type 0} (dec : Discrete K) where
  pop_valid-cases :
      (pq : List (Entry K)) (e x : WaitFor K) (v : IsValid pq)
      → peek_view pq ≡ some e
      → Memᴰ x (map view pq)
      → (x ≡ e) ⊎ Memᴰ x (map view (pop_valid pq v).waiting)
  pop_valid-cases [] e x v h m = cc
  pop_valid-cases (y ∷ ys) e x v h m =
      let r = pop-TakesFirst (y ∷ ys) v in
      elim (Bool-cases (weight (is_entry dec x) r.1 == 0)) [
        | inl z ↦ inr (
            weight_member dec x r.0
              (ground (arith, z, r.6 (is_entry dec x), member_weight dec x (y ∷ ys) m)))
        | inr n ↦
            inl (
              is_entry_view dec x r.1 (dec _ _) (ground (arith, n)) ∙ ap view r.4 ∙ some-path _ _ h)
      ]

  pop_valid-keeps :
      (pq : List (Entry K)) (x : WaitFor K) (v : IsValid pq)
      → Memᴰ x (map view (pop_valid pq v).waiting)
      → Memᴰ x (map view pq)
  pop_valid-keeps [] x v m = m
  pop_valid-keeps (y ∷ ys) x v m =
      let r = pop-TakesFirst (y ∷ ys) v in
      weight_member dec x (y ∷ ys) (omega (arith, r.6 (is_entry dec x), member_weight dec x r.0 m))

  pop_valid-shorter :
      (pq : List (Entry K)) (e : WaitFor K) (v : IsValid pq)
      → peek_view pq ≡ some e
      → suc (length (map view (pop_valid pq v).waiting)) ≡ length (map view pq)
  pop_valid-shorter [] e v h = cc
  pop_valid-shorter (y ∷ ys) e v h =
      let r = pop-TakesFirst (y ∷ ys) v in
      omega
        (arith, length-map r.0, length-map ys, weigh_one r.0, weigh_one (y ∷ ys), r.6 (λ k t. 1))

  -- The queue of waiting entries under container/heap is the heap that the waiting loop relies on:
  -- `Peek` of a queue that is not empty is a least entry, and `heap.Pop` returns it, and removes it
  -- and nothing else.
  pub entry_heap-IsHeap : IsHeap (entry_heap dec)
  entry_heap-IsHeap = record {
    empty = λ q h. peek-empty q.waiting h;
    first = λ q e h. peek-first q.waiting e h;
    popped_first = λ q e h. popped_valid-first q.waiting e q.valid h;
    least = λ q e x h m. peek-least q.waiting e x q.valid h m;
    pop_cases = λ q e x h m. pop_valid-cases q.waiting e x q.valid h m;
    pop_keeps = λ q e x h m. pop_valid-keeps q.waiting x q.valid m;
    pop_shorter = λ q e h. pop_valid-shorter q.waiting e q.valid h;
  }
