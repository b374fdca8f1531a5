-- ===== src/Queue.antt =====
-- services/api/queue: the requests that wait for a model.
pub mod RequestQueue
pub mod Processor
pub mod Dispatcher
