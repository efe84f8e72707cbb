-- ===== src/Events.antt =====
-- packages/events/src: the subscription that an emitter is given, and the in-process provider.
mod Tests
pub mod Subscription
pub mod Delivery
pub mod Provider
pub mod Awaiting
pub mod Runs
pub mod Marks
pub mod Keys
