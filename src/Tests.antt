-- ===== src/Tests.antt =====
-- Concrete runs of the models: the theorems at inputs at which their hypotheses hold.
mod Data
mod Issues
mod Outbox
mod Tenants
mod Worker
mod Delivery
mod App
mod Poison
mod Auth
mod Binaries
mod Serving
mod Plans
