-- ===== src/TinyFs.antt =====
-- fs/tinyfs/: a file system in clusters that a table of bytes (the FAT) links to chains.
pub mod Disk
pub mod Cluster
pub mod Rootdir
pub mod Operations
pub mod Mounting
