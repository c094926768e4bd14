-- ===== src/Build.antt =====
-- src/build: the compiler's requests, its virtual paths and its memory-only files.
pub mod Paths
pub mod Requests
pub mod Files
pub mod Run
