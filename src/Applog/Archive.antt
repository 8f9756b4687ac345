-- ===== src/Applog/Archive.antt =====
-- `Store` of internal/applog/store.go: the archive of log files, its clean-up and its writes.
-- A directory maps names to files and folders. An operation runs under the locks of the store, so it
-- is one step. Times are in nanoseconds, and how package time prints them is an argument, as is
-- which calls of the operating system fail. Sizes stay below 2^63.
pub mod Files
pub mod Cleaning
pub mod Writing
pub mod Exporting
pub use Files.{Entry, Directory, LogFile, is_managed_log_name, list_log_files, total_size}
