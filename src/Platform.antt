-- ===== src/Platform.antt =====
-- What the crate uses of Rust's standard library and of the kernel: results, texts, paths, byte
-- strings and maps keyed by them, the process builder, and the operating system's calls.
pub mod Result
pub mod Text
pub mod OsString
pub mod OsMap
pub mod FilePath
pub mod Io
pub mod Process
pub mod Os
pub mod Beside
pub mod State
