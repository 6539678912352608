-- ===== src/Files.antt =====
-- The file and folder service, internal/files/files.go.
pub mod Names
pub mod Api
pub mod Listing
pub mod Content
pub mod Changes
pub mod Folders
pub mod Service
