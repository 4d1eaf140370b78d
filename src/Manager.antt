-- ===== src/Manager.antt =====
-- src/manager_lib/ftb_manager_lib.c: the agent's table of peers, the map from subscriptions to the
-- peers that asked for them, and the operations on both.
pub mod State
pub mod Propagation
pub mod Lifecycle
pub mod Clients
pub mod Subscriptions
pub mod Frame
pub mod Freed
pub mod Routes
pub mod Tables
pub mod Coherence
pub mod Departure
pub mod Sending
pub mod Registration
pub mod Subscription
pub mod Subscribing
pub mod Catchers
pub mod Delivery
pub mod Cleanup
pub mod Shutdown
