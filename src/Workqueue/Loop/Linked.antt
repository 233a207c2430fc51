-- ===== src/Workqueue/Loop/Linked.antt =====
-- pkg/utils/workqueue: the loop's queue of entries and its map of known entries agree in every round.
use k8s_controller_the_hard.Prelude.Places.{get_elem?}
use k8s_controller_the_hard.Prelude.{
  ℕ, ◌<◌, ◌≡◌, refl, sym, ap, subst, ◌∙◌, ◌⊎◌, inl, inr, Option, none, some, List, [], ◌∷◌, ltb,
  ◌==◌, if◌then◌else◌, arith, Bool-cases, Option-cases,
}
use k8s_controller_the_hard.Prelude.GoMap
use k8s_controller_the_hard.Prelude.GoMap.{GoMap}
use k8s_controller_the_hard.Workqueue.Queue.{WaitFor}
use k8s_controller_the_hard.Workqueue.PriorityQueue.{Entry}
use k8s_controller_the_hard.Workqueue.PriorityQueue.Calls.{IsValid, push-Keeps, pop-TakesFirst}
use k8s_controller_the_hard.Workqueue.Known.{Known}
use k8s_controller_the_hard.Workqueue.Known.Weights.{known_weight, known_time, find_place-some}
use k8s_controller_the_hard.Workqueue.Known.Agrees.{
  Agrees, push-Agrees, lower-Agrees, set_time-Keeps,
}
use k8s_controller_the_hard.Workqueue.Known.Takes.{take-Agrees}
use k8s_controller_the_hard.Workqueue.Waiting.{WaitingState, insert_known, pop_entry}
use k8s_controller_the_hard.Workqueue.Waiting.Ready.{Waits}
use k8s_controller_the_hard.Workqueue.Waiting.Members.{view, member_weight, weight_member}
use k8s_controller_the_hard.Workqueue.Waiting.Entries.{
  ValidQueue, entry_heap, set_time_valid, unplaced_entry, pop_valid, peek_view, popped_valid-first,
}

abbrev pub Loop : Type 0 → Type 0 → Type 0
Loop K S = WaitingState K S (ValidQueue K)

abbrev pub known_of : {K S : Type 0} → Loop K S → Known K
known_of s = record { entries = ValidQueue.waiting s.waiting_for_queue; times = s.known }

known_is : (o : Option ℕ) (t : ℕ) → 0 < known_weight (λ u. if u == t then 1 else 0) o → o ≡ some t
known_is none t h = absurd (omega (arith, h))
known_is (some u) t h = ap some (ground (arith, h))

same_entry : {K : Type 0} → (x o : Entry K) → some x ≡ some o → x ≡ o
same_entry x o h = cc

pub same_wait : {K : Type 0} → (x o : WaitFor K) → some x ≡ some o → x ≡ o
same_wait x o h = cc

module _ {K : Type 0} (dec : Discrete K) where
  -- The first entry is taken, and its item is forgotten.
  take_front-Agrees :
      (pq : List (Entry K)) (v : IsValid pq) (times : GoMap K ℕ) (e : WaitFor K)
      → Agrees dec (record { entries = pq; times = times })
      → peek_view pq ≡ some e
      → Agrees dec (record {
        entries = ValidQueue.waiting (pop_valid pq v);
        times = GoMap.remove dec times e.item;
      })
  unfolding get_elem?
  take_front-Agrees [] v times e a h = cc
  take_front-Agrees (x ∷ xs) v times e a h =
      let r = pop-TakesFirst (x ∷ xs) v in
      let known : GoMap.get dec times (r.1).entry_data ≡ some (r.1).ready_at = rw r.4 (
        known_time dec (x ∷ xs) 0 x (GoMap.get dec times x.entry_data) (a.same x.entry_data)
          refl) in
      let own : (r.1).entry_data ≡ e.item =
        ap Entry.entry_data r.4 ∙ ap WaitFor.item (same_wait (view x) e h) in
      subst (λ k. Agrees dec (record { entries = r.0; times = GoMap.remove dec times k })) own
        (take-Agrees dec (record { entries = x ∷ xs; times = times }) r.1 r.0 a known r.3 r.6)

module _ {K S : Type 0} (dec : Discrete K) where
  abbrev pub IsLinked : Loop K S → Type 0
  IsLinked s = Agrees dec (known_of s)

  -- The known time of an item is that of its entry.
  pub known-Waits :
      (s : Loop K S) (y : K) (t : ℕ)
      → IsLinked s
      → GoMap.get dec s.known y ≡ some t
      → Waits dec (entry_heap dec) s (record { item = y; ready_at = t })
  known-Waits s y t a h =
      weight_member dec (record { item = y; ready_at = t }) (ValidQueue.waiting s.waiting_for_queue)
        (ground (
          arith,
          a.same y (λ u. if u == t then 1 else 0),
          ap (known_weight (λ u. if u == t then 1 else 0)) h,
        ))

  pub Waits-known :
      (s : Loop K S) (y : K) (t : ℕ)
      → IsLinked s
      → Waits dec (entry_heap dec) s (record { item = y; ready_at = t })
      → GoMap.get dec s.known y ≡ some t
  Waits-known s y t a m =
      let w : ℕ → ℕ = λ u. if u == t then 1 else 0 in
      let h =
        member_weight dec (record { item = y; ready_at = t })
          (ValidQueue.waiting s.waiting_for_queue) m in
      known_is (GoMap.get dec s.known y) t (omega (arith, h, a.same y w))

  -- `heap.Fix` of the entry of the item, at the place where it stands.
  lowered-Agrees :
      (s : Loop K S) (e : WaitFor K) (i : ℕ) (o : Entry K)
      (c : (get_elem? (ValidQueue.waiting s.waiting_for_queue) i ≡ none)
        ⊎ ((x : Entry K) × (get_elem? (ValidQueue.waiting s.waiting_for_queue) i ≡ some x)))
      → IsLinked s
      → get_elem? (ValidQueue.waiting s.waiting_for_queue) i ≡ some o
      → o.entry_data ≡ e.item
      → Agrees dec (record {
        entries = ValidQueue.waiting (set_time_valid s.waiting_for_queue i e.ready_at c);
        times = GoMap.put dec s.known e.item e.ready_at;
      })
  lowered-Agrees s e i o (inl n) a g p = cc
  lowered-Agrees s e i o (inr (x, h)) a g p =
      let q = ValidQueue.waiting s.waiting_for_queue in
      let own : x.entry_data ≡ e.item = ap Entry.entry_data (same_entry x o (sym h ∙ g)) ∙ p in
      let known : GoMap.get dec s.known e.item ≡ some x.ready_at =
        rw own at
          (known_time dec q i x (GoMap.get dec s.known x.entry_data) (a.same x.entry_data) h) in
      let r = set_time-Keeps q i e.ready_at x (ValidQueue.valid s.waiting_for_queue) h in
      lower-Agrees dec (known_of s) (unplaced_entry e) x r.0 a known own r.2 r.3

  pub insert-IsLinked :
      (s : Loop K S) (e : WaitFor K) (o : Option ℕ)
      → IsLinked s
      → GoMap.get dec s.known e.item ≡ o
      → IsLinked (insert_known dec (entry_heap dec) s e o)
  insert-IsLinked s e none a h =
      let r =
        push-Keeps (ValidQueue.waiting s.waiting_for_queue) (unplaced_entry e)
          (ValidQueue.valid s.waiting_for_queue) in
      push-Agrees dec (known_of s) (unplaced_entry e) r.0 a h r.2 r.3
  insert-IsLinked s e (some old) a h = elim (Bool-cases (ltb e.ready_at old)) [
    | inr later ↦ rw later a
    | inl sooner ↦
        let q = ValidQueue.waiting s.waiting_for_queue in
        let (i, o, f, g, p) =
          find_place-some dec q e.item (λ t. 1)
            (omega (arith, a.same e.item (λ t. 1), ap (known_weight (λ t. 1)) h)) in
        rw (sooner, f) (lowered-Agrees s e i o (Option-cases (get_elem? q i)) a g p)
  ]

  pub pop-IsLinked :
      (now : ℕ) (s : Loop K S) (e : WaitFor K)
      → IsLinked s
      → peek_view (ValidQueue.waiting s.waiting_for_queue) ≡ some e
      → IsLinked (pop_entry dec (entry_heap dec) now s)
  pop-IsLinked now s e a h =
      rw
        (popped_valid-first (ValidQueue.waiting s.waiting_for_queue) e
          (ValidQueue.valid s.waiting_for_queue) h)
        (take_front-Agrees dec (ValidQueue.waiting s.waiting_for_queue)
          (ValidQueue.valid s.waiting_for_queue) s.known e a h)
