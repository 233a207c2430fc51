-- ===== src/Controller/Running/Tests.antt =====
-- A run of the workers: the theorem at concrete states. Items are numbers.
use k8s_controller_the_hard.Prelude.{
  ℕ, ◌+◌, ◌*◌, ◌≤◌, ◌≡◌, ◌⊎◌, refl, inl, true, false, [], ◌∷◌, ℕ_discrete, length,
}
use k8s_controller_the_hard.Prelude.Int.{pos}
use k8s_controller_the_hard.Prelude.Places.{get_elem?, set_elem}
use k8s_controller_the_hard.Workqueue.Metrics
use k8s_controller_the_hard.Workqueue.Set.{has}
use k8s_controller_the_hard.Workqueue.Queue.{
  Queue, RateLimiter, new_named_playboy_queue, get_fresh, add, add_fresh_or_staled, done, shut_down,
}
use k8s_controller_the_hard.Workqueue.Queue.Steps.{adds, shuts_down, step, Reach, start}
use k8s_controller_the_hard.Workqueue.Queue.Invariant.{Reach-IsValid}
use k8s_controller_the_hard.Controller.Running.{
  idle, busy, takes, finishes, Running, idle_copies, worker_run, run_workers, turn, Reaches, starts,
  turns, others,
}
use k8s_controller_the_hard.Controller.Running.Exclusive.{Excludes, run_workers-Excludes}
use k8s_controller_the_hard.Controller.Running.Lowers.{turns_ahead, AllLeft}
use k8s_controller_the_hard.Controller.Running.Ends.{turns_of, Continues, run_workers-Ends}

abbrev unlimited : RateLimiter ℕ (Unit {0})
unlimited = record { when = λ x s. (pos 0, s); forget = λ x s. s; num_requeues = λ x s. 0 }

abbrev empty_queue : Queue ℕ (Unit {0})
empty_queue = new_named_playboy_queue 3 tt "" Metrics.noop_pointer

-- One goroutine of each worker.
abbrev begun : Running ℕ (Unit {0})
begun = run_workers (pos 1) (pos 1) empty_queue

-- Item 7 has come, and the fresh worker has taken it.
abbrev taken : Running ℕ (Unit {0})
taken = record {
  queue = (get_fresh ℕ_discrete 2 (add ℕ_discrete 1 empty_queue 7)).0;
  goroutines =
      record { fresh = true; stage = busy 7 } ∷ record { fresh = false; stage = idle } ∷ [];
}

taken-Reaches : Reaches ℕ_discrete unlimited begun taken
unfolding run_workers worker_run idle_copies get_elem? set_elem turn step get_fresh add
    add_fresh_or_staled new_named_playboy_queue has ℕ_discrete
taken-Reaches =
    turns 2 0 takes (record { fresh = true; stage = idle })
      (get_fresh ℕ_discrete 2 (add ℕ_discrete 1 empty_queue 7)).0
      (record { fresh = true; stage = busy 7 })
      (others 1 (adds 7) (add ℕ_discrete 1 empty_queue 7) starts tt (inl refl)) refl refl

run_workers-Excludes_example : Excludes ℕ_discrete unlimited taken
unfolding new_named_playboy_queue has
run_workers-Excludes_example =
    let fresh : Reach ℕ_discrete unlimited 3 tt "" Metrics.noop_pointer empty_queue = start in
    run_workers-Excludes ℕ_discrete unlimited (pos 1) (pos 1) empty_queue taken
      (Reach-IsValid ℕ_discrete unlimited fresh) (λ x. refl) taken-Reaches

-- The queue is shut down, and then the goroutine is done with the item.
abbrev closing : Running ℕ (Unit {0})
closing = record taken { queue = shut_down taken.queue }

abbrev finished : Running ℕ (Unit {0})
finished = record {
  queue = done ℕ_discrete unlimited 4 closing.queue 7;
  goroutines = record { fresh = true; stage = idle } ∷ record { fresh = false; stage = idle } ∷ [];
}

closing-Reaches : Reaches ℕ_discrete unlimited begun closing
unfolding step
closing-Reaches = others 3 shuts_down (shut_down taken.queue) taken-Reaches tt (inl refl)

finished-Reaches : Reaches ℕ_discrete unlimited closing finished
unfolding turn get_elem? set_elem
finished-Reaches =
    turns 4 0 finishes (record { fresh = true; stage = busy 7 })
      (done ℕ_discrete unlimited 4 closing.queue 7) (record { fresh = true; stage = idle }) starts
      refl refl

closing-down : Queue.shutting_down closing.queue ≡ true
unfolding shut_down get_fresh add add_fresh_or_staled new_named_playboy_queue has
closing-down = refl

run_workers-Ends_example :
    (turns_of ℕ_discrete unlimited finished-Reaches + turns_ahead finished ≤ turns_ahead closing)
    × (turns_ahead closing ≤ 3 * length (Queue.dirty closing.queue) + 2 * length closing.goroutines)
    × (AllLeft finished.goroutines ⊎ Continues ℕ_discrete unlimited finished)
unfolding new_named_playboy_queue has
run_workers-Ends_example =
    let fresh : Reach ℕ_discrete unlimited 3 tt "" Metrics.noop_pointer empty_queue = start in
    run_workers-Ends ℕ_discrete unlimited (pos 1) (pos 1) empty_queue closing finished
      (Reach-IsValid ℕ_discrete unlimited fresh) (λ x. refl) closing-Reaches closing-down
      finished-Reaches
