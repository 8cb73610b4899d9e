-- ===== src/Auth.antt =====
-- crates/dandori-auth: which tokens are accepted, with which keys and algorithms, how the key set
-- is loaded and refreshed, and how all this is configured. The child modules follow the source:
-- Algorithms is algorithms.rs, and the others are the parts of lib.rs.
pub mod Algorithms
pub mod Keys
pub mod Token
pub mod Refresh
pub mod Config
