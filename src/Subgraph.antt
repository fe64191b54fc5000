-- ===== src/Subgraph.antt =====
-- The subgraph: the event handlers of packages/subgraph/src/mappings and the entities that they keep,
-- packages/subgraph/src/entities. The store of entities is the state of a handler; an entity that was
-- loaded is a copy until it is saved.
pub mod Numbers
pub mod Dict
pub mod Entities
pub mod Handler
pub mod Global
pub mod TroveOperation
pub mod SystemState
pub mod Change
pub mod User
pub mod Token
pub mod Deposit
pub mod Stake
pub mod Trove
pub mod Mappings
pub mod WellFormed
pub mod Totality
pub mod Staked
pub mod Payment
pub mod Unpriced
