-- ===== src/FileTransfer.antt =====
-- lib/file_transfer_agent: PUT and GET, file after file, over a storage utility.
pub mod Metadata
pub mod Uploads
pub mod Agent
pub mod S3
mod Examples
