-- ===== src/Workqueue.antt =====
-- pkg/utils/workqueue.
pub mod Set
pub mod Metrics
pub mod Contract
pub mod Queue
pub mod Interface
pub mod Waiters
pub mod Waiting
pub mod PriorityQueue
pub mod Known
pub mod Loop
mod Tests
