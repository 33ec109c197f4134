-- ===== src/Examples.antt =====
-- Concrete inputs, and what the theorems say of the code on them.
pub mod Values
mod Wire
mod Rules
mod Server
pub mod Requests
mod Connections
pub mod Tickets
mod Streams
mod Queues
mod Engines
mod Clients
