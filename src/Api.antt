-- ===== src/Api.antt =====
-- The public functions of src/hive_key.c, src/hive_file.c and src/hive_client.c.
pub mod Connect
pub mod Key
pub mod Os
pub mod File
pub mod Transfer
