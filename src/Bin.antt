-- ===== src/Bin.antt =====
-- The programs of the repository: what bin/dandori-worker reads from its environment and how it
-- runs, the two transports bin/dandori-api and bin/dandori-mcp, and the check of the layers,
-- bin/dandori-deps-check.
pub mod Worker
pub mod DepsCheck
pub mod Api
pub mod Mcp
