-- ===== src/Client.antt =====
-- src/hive_client.c and src/mkdirs.c: a client, whose data has a directory, and the connections
-- that it makes.

pub mod Directories
pub mod Above
pub mod Object
pub mod Create
