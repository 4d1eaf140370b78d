-- ===== src/Network.antt =====
-- src/manager_lib/network/network_sock: how a process finds its parent and talks to its peers.
pub mod Bootstrap
pub mod Exchange
pub mod Reporting
pub mod Connect
pub mod Spinning
pub mod Joining
pub mod Stream
pub mod Framing
pub mod Layer
pub mod Table
pub mod Grabbing
pub mod Channels
pub mod Sending
pub mod Taking
pub mod Free
pub mod Steps
pub mod Running
