-- ===== src/WorldKb.antt =====
-- agenttown-mcp/pkg/worldkb: the world knowledge base, merged from the spatial facts that the game
-- exports and the narrative that people write.
pub mod Json
pub mod Entities
pub mod Projection
pub mod Authored
pub mod Gather
pub mod Relations
pub mod Merger
pub mod Validator
pub mod Query
