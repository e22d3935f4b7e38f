-- ===== src/Commands.antt =====
-- lib/cluster/commands: the command that answers queries from the standard input, and the ones that
-- make the nodes of a cluster.
pub mod Query
pub mod Nodes
pub mod Sql
pub mod Certs
pub mod Deinit
pub mod Calls
use zygote.Common.{ℤ, pos}

abbrev pub router_read_write_port : ℤ
router_read_write_port = pos 6446

abbrev pub router_read_only_port : ℤ
router_read_only_port = pos 7447

abbrev pub default_shard_size : ℤ
default_shard_size = pos 3

abbrev pub default_num_shards : ℤ
default_num_shards = pos 3
