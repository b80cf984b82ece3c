-- ===== src/Blob.antt =====
-- application/blob and infra/adapters/local_blob_storage.py: uploaded objects, whose bytes are files and
-- whose names are rows. The image library, the disk and the database are parameters.
pub mod Validators
pub mod Storage
pub mod Handlers
pub mod Files
pub mod Backed
pub mod Orphans
mod Tests
