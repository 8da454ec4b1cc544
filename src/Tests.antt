-- ===== src/Tests.antt =====
-- Runs of the definitions, and the theorems at concrete inputs.
pub mod Data
pub mod Graph
mod Panel
mod Dialogs
mod Pages
mod Runs
mod View
mod Widget
mod Session
mod Opened
mod Tabs
mod Api
