-- ===== src/Tests.antt =====
-- Concrete inputs on which the library's theorems are applied.
mod Errors
mod Keys
mod Files
mod Bodies
mod Nodes
mod Cloud
mod Values
mod Tokens
mod Stores
mod Drives
mod Clients
mod Keystores
mod Shells
mod Reconnect
mod Handles
