-- ===== src/Cyber.antt =====
-- packs/cyber_webapp/cyber_webapp: the invariants of the worlds of the web application pack. Their
-- messages are not modelled.
pub mod Invariants
pub mod Credentials
pub mod Tokens
pub mod Lookups
pub mod Reaching
pub mod Bindings
pub mod Oracle
pub mod Flags
