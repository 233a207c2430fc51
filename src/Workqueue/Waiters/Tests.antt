-- ===== src/Workqueue/Waiters/Tests.antt =====
-- The sleeping goroutines: a run, and the theorem at a concrete state. Items are numbers.
use k8s_controller_the_hard.Prelude.{ℕ, refl, true, false, [], ◌∷◌, ℕ_discrete}
use k8s_controller_the_hard.Prelude.Places.{get_elem?}
use k8s_controller_the_hard.Workqueue.Metrics
use k8s_controller_the_hard.Workqueue.Set.{has}
use k8s_controller_the_hard.Workqueue.Queue.{new_named_playboy_queue, add_fresh_or_staled}
use k8s_controller_the_hard.Workqueue.Waiters.{Waiters, remove_at, after_call, resume}
use k8s_controller_the_hard.Workqueue.Waiters.Wakes.{Lost, add-Comes}

-- A goroutine sleeps in `GetFresh`, and one in `Get`.
abbrev quiet : Waiters ℕ (Unit {0})
quiet = record {
  queue = new_named_playboy_queue 3 tt "" Metrics.noop_pointer;
  asleep = true ∷ false ∷ [];
  awake = [];
}

-- Item 7 comes to the staled queue, and the first goroutine is woken.
add-Comes_example : Lost ℕ_discrete 7 (remove_at (true ∷ false ∷ []) 0) (
    resume ℕ_discrete 2 (after_call quiet 0 (add_fresh_or_staled ℕ_discrete 1 quiet.queue 7 false)))
unfolding new_named_playboy_queue get_elem? has
add-Comes_example = add-Comes ℕ_discrete 1 2 0 quiet 7 false true refl refl refl refl refl refl refl
