-- ===== src/Controller.antt =====
-- pkg/utils/controller: predicates, event handlers, workers and the constructors.
pub mod Predicate
pub mod Handler
pub mod Worker
pub mod Build
pub mod Running
mod Tests
