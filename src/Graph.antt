-- ===== src/Graph.antt =====
-- web/client/graph: the panel on which the tasks of a pipeline are connected.
pub mod Links
pub mod Domain
pub mod Consistent
pub mod Isolate
pub mod Panel
pub mod Connect
pub mod Loop
pub mod Draw
pub mod Dangling
pub mod Lines
pub mod Socket
pub mod Settings
pub mod Places
pub mod View
pub mod Settle
pub mod Names
pub mod Drop
pub mod OffMap
pub mod Handlers
pub mod Menu
pub mod Disconnect
pub mod Selection
