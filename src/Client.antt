-- ===== src/Client.antt =====
-- src/client_lib/ftb_client_lib.c: what a client hands in, checked and kept.
pub mod Namespace
pub mod Splitting
pub mod Declared
pub mod Declaring
pub mod Polling
pub mod Queueing
pub mod Filter
pub mod Fitting
pub mod Library
pub mod Receiving
pub mod Progress
pub mod Connecting
pub mod Subscribing
pub mod Publishing
pub mod Schema
pub mod Calls
pub mod Events
pub mod Ends
pub mod Entering
pub mod Joining
pub mod Leaving
pub mod Callbacks
pub mod Session
pub mod Resending
