-- ===== src/Startup/Leading/Tests.antt =====
-- main.go: the theorems on the leader election at a concrete run.
use k8s_controller_the_hard.Prelude.{refl, true, false}
use k8s_controller_the_hard.Startup.Leading.{
  leading, MainState, wait_state, synced, on_started_leading, syncs, acquires, starts, MainReach,
  waits, goes,
}
use k8s_controller_the_hard.Startup.Leading.Guards.{IsGuarded, Reach-IsGuarded}

-- The caches are synced, `main` leads, and the callback has run.
abbrev leader : MainState
leader = on_started_leading (record (synced true wait_state) { phase = leading; gained = false })

leader-Reach : MainReach leader
unfolding wait_state synced on_started_leading
leader-Reach = goes (goes (goes waits (syncs true refl)) (acquires refl)) (starts refl refl)

Reach-IsGuarded_example : IsGuarded leader
Reach-IsGuarded_example = Reach-IsGuarded leader-Reach
