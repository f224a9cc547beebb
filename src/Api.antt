-- ===== src/Api.antt =====
-- The REST API: astroplant-api/src.
pub mod Problem
pub mod Models
pub mod Database
pub mod Authorization
pub mod Helpers
pub mod Members
pub mod Configurations
pub mod Deletion
pub mod Sample
pub mod Pages
pub mod NewKits
pub mod Users
pub mod Session
pub mod Archive
