-- ===== src/IsobusServer.antt =====
-- The ISOBUS file server: isobusfs/isobusfs_srv_fa.c, isobusfs/isobusfs_srv_dh.c, and
-- the clients of isobusfs/isobusfs_srv_cm.c.
pub mod Handles
pub mod Paths
pub mod Open
pub mod Directory
pub mod Connections
pub mod History
mod Tests
