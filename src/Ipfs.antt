-- ===== src/Ipfs.antt =====
-- The IPFS backend: src/vendors/ipfs/ipfs_rpc.c and src/vendors/ipfs/ipfs.c.
pub mod Rpc
pub mod Bootstrap
pub mod Connect
pub mod Options
pub mod Valid
pub mod Fill
pub mod Node
