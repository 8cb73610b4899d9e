-- ===== src/Domain.antt =====
-- crates/dandori-domain: commands, events, errors, identifiers and the authenticated context.
pub mod Error
pub mod Ids
pub mod Command
pub mod Event
pub mod Model
pub mod Auth
pub mod Laws
