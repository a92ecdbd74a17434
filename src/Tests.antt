-- ===== src/Tests.antt =====
-- Concrete runs, and the theorems at concrete inputs.
mod Code
mod Frames
mod Dirents
mod Allocators
mod Fids
mod Stats
mod Inflight
mod Server
mod Files
mod Directories
mod Walks
