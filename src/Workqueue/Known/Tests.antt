-- ===== src/Workqueue/Known/Tests.antt =====
-- The waiting entries and the known ones: runs, and the theorems at a concrete input.
use k8s_controller_the_hard.Prelude.Places.{total, get_elem?, set_elem}
use k8s_controller_the_hard.Prelude.{ℕ, ◌≡◌, refl, some, [], ◌∷◌, ℕ_discrete, arith}
use k8s_controller_the_hard.Prelude.GoMap
use k8s_controller_the_hard.Workqueue.PriorityQueue.{
  less, swap, up, down, down_from, child, heap_fix,
}
use k8s_controller_the_hard.Workqueue.PriorityQueue.Tests.{entry, two, two-IsValid}
use k8s_controller_the_hard.Workqueue.Known.{
  Known, find_place, set_time, insert_waiting, pop_waiting,
}
use k8s_controller_the_hard.Workqueue.Known.Agrees.{Agrees, Inserts, insert_waiting-Inserts}
use k8s_controller_the_hard.Workqueue.Known.Takes.{TakesEarliest, pop_waiting-TakesEarliest}

abbrev waiting : Known ℕ
waiting = record { entries = two; times = (7, 5) ∷ (8, 9) ∷ [] }

waiting-Agrees : Agrees ℕ_discrete waiting
unfolding total GoMap.get
waiting-Agrees = record { valid = two-IsValid; same = λ x w. ground arith }

-- An earlier time for a known item brings its entry to the front.
insert_earlier :
    insert_waiting ℕ_discrete waiting (entry 8 3 0)
    ≡ some (record { entries = entry 8 3 0 ∷ entry 7 5 1 ∷ []; times = (8, 3) ∷ (7, 5) ∷ [] })
unfolding insert_waiting set_time find_place heap_fix up down down_from child less swap get_elem?
    set_elem GoMap.get GoMap.put GoMap.remove ℕ_discrete
insert_earlier = refl

insert_waiting-Inserts_example :
    Inserts ℕ_discrete waiting (entry 8 3 0) (insert_waiting ℕ_discrete waiting (entry 8 3 0))
insert_waiting-Inserts_example =
    insert_waiting-Inserts ℕ_discrete waiting (entry 8 3 0) waiting-Agrees

pop_waiting-TakesEarliest_example :
    TakesEarliest ℕ_discrete waiting (pop_waiting ℕ_discrete waiting)
unfolding GoMap.get ℕ_discrete
pop_waiting-TakesEarliest_example =
    pop_waiting-TakesEarliest ℕ_discrete waiting 8 9 waiting-Agrees refl
