-- ===== src/Tests.antt =====
-- Each property at a concrete input, with small instances of the libraries that the bricks call.
pub mod Json
pub mod Requests
pub mod Servers
pub mod Samples
pub mod Reader
pub mod Contexts
mod Services
mod Commands
mod Consoles
mod Cores
mod Repos
mod Keys
pub mod Hooks
mod Tokens
mod Handlers
mod Notifiers
mod Propagation
mod Spans
mod Traces
mod Scenarios
