-- ===== src/Tests.antt =====
-- The parameters of the model, instantiated, and the theorems applied to concrete inputs.
pub mod Document
pub mod Disk
pub mod Wire
pub mod Sample
pub mod Accounts
pub mod Lines
pub mod Rows
pub mod Frames
pub mod Uploads
pub mod Clients
pub mod Queries
pub mod Managers
pub mod Machine
pub mod Starts
pub mod Additions
pub mod Sound
pub mod Race
pub mod Repositories
