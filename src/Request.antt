-- ===== src/Request.antt =====
-- request/: the requests of clients.
pub mod Buffer
pub mod Bucket
pub mod BucketGroup
pub mod Digest
pub mod Requests
pub mod Batches
