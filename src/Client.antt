-- ===== src/Client.antt =====
-- Package client: the allocators of fids and tags.
pub mod FidAlloc
pub mod Tags
pub mod File
pub mod ReadDir
pub mod Walk
