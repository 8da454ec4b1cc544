-- ===== src/Store.antt =====
-- web/client/store: one module for each store. A store is its Map; a method that changes it
-- returns the new Map. The objects are values here, so `copy` rebuilds an object from its fields.
pub mod Events
pub mod Pipelines
pub mod TaskTemplates
pub mod PipelineTasks
pub mod Tasks
pub mod Laws
pub mod Interface
pub mod Refine
pub mod Selected
pub mod Ordered
pub mod Connections
