-- ===== src/Lib.antt =====
-- A model of the controller demo lichuan0620/k8s-controller-the-hard-way: a work queue with two
-- priorities, the controllers that feed and drain it, and the reconcilers.
--
-- Parts and files:
--
-- - Prelude: Boolean tests, lists and their places, integers, Go's maps, and `Run`, the outcome of a call that
--   returns, blocks or panics.
-- - Workqueue/Set: the `set` of pkg/utils/workqueue/helper.go.
-- - Workqueue/Metrics: pkg/utils/workqueue/metrics.go.
-- - Workqueue/Queue: `playboyType` of pkg/utils/workqueue/playboyqueue.go. `add_fresh_or_staled` is
--   `add`, `add`, `get`, `get_fresh`, `done`, `shut_down`, `add_after`, `add_rate_limited` and
--   `forget` are the methods of these names; `cond` logs its `Signal` and `Broadcast`. A
--   `cond.Wait` is the outcome `wait`. `add`, `get`, `get_fresh`, `done` and `shut_down` run under the
--   lock of `cond`, and `forget` under that of the failures. `AddAfter` and `AddRateLimited` take and
--   release several locks: as functions they are what the calls do when no other call comes in
--   between, and Queue/Parts has them in parts that others come between.
-- - Workqueue/Queue/Steps: the methods as calls in any order, none of which overlaps another.
-- - Workqueue/Queue/Parts: the parts of `AddAfter` and `AddRateLimited` and whole calls in any order.
-- - Workqueue/Contract: what a work queue promises, as sets.
-- - Workqueue/Queue/Placement, Invariant, Delivery, Refinement, Counters, Requeue, Panic, Drain:
--   proofs, named for what they prove.
-- - Controller/Predicate: pkg/utils/controller/predicate.go; Predicate/Laws: which events pass.
-- - Controller/Handler: the handlers `OnAdd`, `OnUpdate` and `OnDelete` of controller.go; Handler/Kept:
--   what becomes of events.
-- - Controller/Worker: `processItemFromQueue` of worker.go, on any queue with the methods of
--   `RateLimitingInterface`; `interface_of` is the playboy queue for the fresh and for the staled
--   worker. Worker/Laws, Worker/Settles: what an item comes to. `worker_loop` is the loop
--   of one goroutine of `Run`; Worker/Stops: that it ends.
-- - Controller/Running: `Run` of playboytype.go with the goroutines of its workers, as steps on the
--   queue in any order; Running/Held, Others, Exclusive, Closed, Lowers, Ends:
--   proofs; Running/Tests: a concrete run.
-- - Controller/Build: `validateOptions`, `NewBasicController`, `NewPlayboyType`, `Enqueue` and
--   `EnqueueObject`; Build/Registers and Build/ObjectKeys: proofs.
-- - Controller/Tests: the theorems at concrete inputs.
-- - Reconcilers/Tenant: `Reconcile` of pkg/kubernetes/reconcilers/tenant.go, as a function of the
--   state of the API server; Tenant/Converges: proofs.
-- - Reconcilers/Children: the functions that redis.go gives to `CreateOrPatch` for the StatefulSet and
--   the Service; Children/Ports: proofs.
-- - Reconcilers/Redis: `Reconcile` and `ParseRedisKeyFromObj` of redis.go; Redis/Rounds, Redis/Reports and
--   Redis/Keys:
--   proofs. Reconcilers/Tests: concrete inputs.
-- - Informers: the factory of pkg/kubernetes/client/informers/externalversions/factory.go;
--   Informers/Started and Informers/Synced: proofs. Informers/Tests: concrete inputs.
-- - Signal: pkg/utils/signal/signal.go; Signal/Counts: proofs. Signal/Tests: a concrete state.
-- - Workqueue/Interface: `NewPlayboyQueue`, `NewNamedPlayboyQueue`, `ShuttingDown` and
--   `ShutDownWithDrain`; Interface/Blocked: proofs.
-- - Workqueue/Waiters: the goroutines in the `cond.Wait` of `Get` and `GetFresh`, and whom a `Signal` or
--   `Broadcast` wakes; Waiters/Wakes: proofs; Waiters/Tests: a concrete state.
-- - Workqueue/Waiting: `insert` of helper.go and the body of `waitingLoop`, over a heap; Waiting/Ready,
--   Waiting/Received: proofs; Waiting/Selection: a list as the heap; Waiting/Entries: the queue of
--   entries as the heap, with Waiting/Members: proofs; Waiting/Tests: concrete inputs.
-- - Workqueue/PriorityQueue: `waitForPriorityQueue` of helper.go, under Go's container/heap.
--   PriorityQueue/Order: the order of a heap, by the time at each place; PriorityQueue/Places: an
--   exchange; PriorityQueue/Sifting: `up` and `down`; PriorityQueue/Pushes, Pops, Fixes, Calls: proofs
--   for the calls of container/heap; PriorityQueue/Tests: concrete inputs.
-- - Workqueue/Known: `insert` of helper.go on this queue and the map of known entries, and what a round
--   of `waitingLoop` takes; Known/Weights, Known/Agrees, Known/Takes: proofs; Known/Tests: concrete
--   inputs.
-- - Workqueue/Loop: the rounds of `waitingLoop`, on what the other goroutines have left of the queue,
--   with the timer and the `select`; Loop/Linked, Served, Requests,
--   Schedules, Timer: proofs; Loop/Tests: a
--   concrete state.
-- - Workqueue/Tests: runs, and the theorems at concrete inputs.
-- - Exporters: the instruments of pkg/kubernetes/metrics, with Exporters/QueueProvider (workqueue.go),
--   Exporters/ReflectorProvider (reflector.go) and Exporters/Install (metrics.go). Exporters/Names and
--   Exporters/Registers: proofs; Exporters/Tests: a concrete registerer.
-- - Startup: the part of main.go under `setup controllers`, on the queues of both controllers and one
--   API server; Startup/Registered and Startup/Handled: what it registers, and what this
--   does with events; Startup/Chained, Startup/Deleted: what events come to; Startup/Tests: concrete inputs.
-- - Startup/Leading: main.go from `run informers` on, with the callbacks of the leader election;
--   Leading/Guards: proofs; Leading/Tests: a concrete run.
--
-- Numbers: times and durations are in nanoseconds and do not wrap; `int` counters are natural
-- numbers. Fuel: `get_all` takes one unit for each call of `Get`, and `worker_loop` one for each
-- round; the length of the queue plus one suffices for both. `add_ready` takes one for each entry
-- of the heap, and one more; `up` and `down` take one for each place on their way. The rate
-- limiter, the API client, the informers and the logger are code outside the repository: the first
-- three are parameters, the logger is left out.
--
-- Not modelled: `Run` of basictype.go, which runs a worker on the queue of client-go, the pause
-- between the rounds of a worker, generated clientsets, listers and deep copies, and of main.go
-- flag parsing, the construction of clients and the telemetry server.
pub mod Controller
pub mod Exporters
pub mod Informers
pub mod Prelude
pub mod Reconcilers
pub mod Signal
pub mod Startup
pub mod Workqueue
