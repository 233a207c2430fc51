-- ===== src/Workqueue/Known/Takes.antt =====
-- pkg/utils/workqueue/playboyqueue.go: the loop takes the item with the earliest known time.
use k8s_controller_the_hard.Prelude.Places.{get_elem?, get_elem?-lt}
use k8s_controller_the_hard.Prelude.{
  ℕ, ◌+◌, ◌≤◌, ◌<◌, ◌≡◌, refl, sym, ap, ◌∙◌, Option, none, some, List, [], ◌∷◌, length, ite, arith,
}
use k8s_controller_the_hard.Prelude.GoMap
use k8s_controller_the_hard.Prelude.GoMap.{GoMap}
use k8s_controller_the_hard.Workqueue.PriorityQueue.{Entry, heap_pop, with_result}
use k8s_controller_the_hard.Workqueue.PriorityQueue.Places.{weight, weigh, time, time_of}
use k8s_controller_the_hard.Workqueue.PriorityQueue.Calls.{IsValid, TakesFirst, pop-TakesFirst}
use k8s_controller_the_hard.Workqueue.Known.{Known, pop_waiting}
use k8s_controller_the_hard.Workqueue.Known.Weights.{
  only, known_weight, known_time, find_place-some, replaced_weight, ite_same,
}
use k8s_controller_the_hard.Workqueue.Known.Agrees.{Agrees}

module _ {K : Type 0} (dec : Discrete K) where
  abbrev time_or : Option ℕ → ℕ
  time_or none = 0
  time_or (some t) = t

  -- The item that is taken has the earliest of the known times, and it is known no more.
  abbrev pub TakesEarliest : Known K → Option (Known K × Entry K) → Type 0
  TakesEarliest q r =
      (s : Known K) × (e : Entry K) × (r ≡ some (s, e))
      × Agrees dec s
      × (GoMap.get dec q.times e.entry_data ≡ some e.ready_at)
      × ((y : K) (t : ℕ) → GoMap.get dec q.times y ≡ some t → e.ready_at ≤ t)
      × ((y : K)
          → GoMap.get dec s.times y ≡ ite (dec e.entry_data y) none (GoMap.get dec q.times y))

  pub take-Agrees :
      (q : Known K) (e : Entry K) (s : List (Entry K))
      → Agrees dec q
      → GoMap.get dec q.times e.entry_data ≡ some e.ready_at
      → IsValid s
      → ((w : K → ℕ → ℕ) → weight w e + weigh w s ≡ weigh w q.entries)
      → Agrees dec (record { entries = s; times = GoMap.remove dec q.times e.entry_data })
  take-Agrees q e s a h v ws = record {
    valid = v;
    same = λ x w. rw (GoMap.get-remove dec q.times e.entry_data x) (
        replaced_weight dec q.times e.entry_data x none w _ _ (dec e.entry_data x)
          (rw h (omega (arith, ws (only dec x w), ite_same (dec e.entry_data x) 0))) (a.same x w));
  }

  -- A known time stands in the queue.
  time_known :
      (q : Known K) (y : K) (t : ℕ)
      → Agrees dec q
      → GoMap.get dec q.times y ≡ some t
      → (i : ℕ) × (i < length q.entries) × (time q.entries i ≡ t)
  time_known q y t a h =
      let (i, o, f, g, p) =
        find_place-some dec q.entries y (λ u. 1)
          (omega (arith, a.same y (λ u. 1), ap (known_weight (λ u. 1)) h)) in
      let known : GoMap.get dec q.times y ≡ some o.ready_at = rw p at (
        known_time dec q.entries i o (GoMap.get dec q.times o.entry_data) (a.same o.entry_data)
          g) in
      (i, get_elem?-lt q.entries i o g, ap time_of g ∙ ap time_or (sym known ∙ h))

  takes_front :
      (x : Entry K) (xs : List (Entry K)) (times : GoMap K ℕ)
      (r : Option (List (Entry K) × Entry K))
      → Agrees dec (record { entries = x ∷ xs; times = times })
      → TakesFirst (x ∷ xs) r
      → TakesEarliest
          (record { entries = x ∷ xs; times = times })
          (with_result r (λ p.
            some (record { entries = p.0; times = GoMap.remove dec times p.1.entry_data }, p.1)))
  unfolding get_elem?
  takes_front x xs times r a (s, e, h, v, front, least, ws) =
      let q : Known K = record { entries = x ∷ xs; times = times } in
      let known : GoMap.get dec times e.entry_data ≡ some e.ready_at = rw front (
        known_time dec (x ∷ xs) 0 x (GoMap.get dec times x.entry_data) (a.same x.entry_data)
          refl) in
      (
        record { entries = s; times = GoMap.remove dec times e.entry_data },
        e,
        rw h refl,
        take-Agrees q e s a known v ws,
        known,
        λ y t k. let (i, l, g) = time_known q y t a k in omega (arith, least i l, g),
        λ y. GoMap.get-remove dec times e.entry_data y,
      )

  taken_cases :
      (pq : List (Entry K)) (times : GoMap K ℕ) (y : K) (t : ℕ)
      → Agrees dec (record { entries = pq; times = times })
      → GoMap.get dec times y ≡ some t
      → TakesEarliest
          (record { entries = pq; times = times })
          (pop_waiting dec (record { entries = pq; times = times }))
  unfolding pop_waiting
  taken_cases [] times y t a h =
      let (i, l, g) = time_known (record { entries = []; times = times }) y t a h in
      absurd (omega (arith, l))
  taken_cases (x ∷ xs) times y t a h =
      takes_front x xs times (heap_pop (x ∷ xs)) a (pop-TakesFirst (x ∷ xs) a.valid)

  -- Where an item is known, a round of the loop takes an entry: it is one with the earliest of all the
  -- known times, which is the known time of its item; the queue and the map still agree, the item is
  -- known no more, and the other items have their times.
  pub pop_waiting-TakesEarliest :
      (q : Known K) (y : K) (t : ℕ)
      → Agrees dec q
      → GoMap.get dec q.times y ≡ some t
      → TakesEarliest q (pop_waiting dec q)
  pop_waiting-TakesEarliest q y t a h = taken_cases q.entries q.times y t a h
