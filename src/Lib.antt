-- ===== src/Lib.antt =====
-- zygote: the core of a cluster of sharded MySQL and Redis nodes, in Go under lib/cluster.
--
-- The parts and how they meet. utils names the nodes: a node is a replica (a letter) of a shard (a
-- number), with a host, a port and a container that follow from the two. cert keeps an authority
-- and signs the certificates of nodes and users. db and mem write the files of the containers of
-- MySQL and Redis nodes into volumes, make their configurations and join them into clusters;
-- container does this with Docker, starts a container and waits until it is healthy. tables keeps
-- the connections of a process to all shards, for reading and for writing, on utils' retries. The
-- server asks its clients for certificates, and the controllers answer with these connections;
-- http is the client of it. remote runs commands and copies files over SSH. commands are the
-- actions of the command line on top of all these: the nodes of a cluster, its removal, queries,
-- certificates, and the SQL files of a change of the schema.
--
--   Common        lists, Go's int, maps with int keys, calls that return or end the process
--   Strings       Go's strings on texts as lists of bytes; Strconv: Itoa and Atoi
--   Errors        the errors that the program looks into
--   Cluster       utils/cluster.go; Cluster/Index: utils/calc_indices.go
--   Backoff       utils/backoff.go: `BackoffConfig.Retry` is `retry`
--   Tables        tables/connection.go: the connector and `SQLEndpoints`; Tables/Connect: `connect`;
--                 Tables/Close: the lookups, `Close` and `CloseAll`; Tables/Operations:
--                 `retryOperation`; Tables/Shards: `ConnectAllShardsRead` and `ConnectAllShardsWrite`;
--                 Tables/Pools: the connector as its clients see it
--   Sql           db/db.go: `SQLNode` and its addresses; Sql/Containers: the settings of its
--                 containers; Sql/Replica: the files in their volumes, `MakeSQLReplica` and
--                 `MakeSQLRouter`; Sql/Replication: `JoinGroupReplication` and
--                 `StartSQLContainers`; Sql/Migrations: the SQL files, with commands/generate.go in
--                 Generate
--   Mem           memconn/mem_conn.go and mem/memory.go; Mem/Create: the command of the cluster;
--                 Mem/Certs: its volume of certificates
--   Container     container/container.go: what Docker is given; Container/Pull: `Pull`;
--                 Container/Start: `StartContainer` and `WaitHealthy`; Container/Spawn:
--                 `SpawnAndWait`, volumes and networks; Container/Input: `SpawnWithInput`, `Vol`,
--                 `Ark` and `Spawn`; Container/Templates: container/sqlinit.go and the templates;
--                 Container/Certs: `makeCertsVolume` of db.go and memory.go
--   Migration     migration/migration.go: `Up`, `Down`, `Migrate` and `NewMigration`
--   Http          server/http.go: the answers; Http/Routes: the routes; Http/Server: `NewServer`,
--                 `tlsConfig` and `Listen`; Http/Client: http/http.go
--   Controllers   controller: Redis (mem.go), Nodes (`ClusterNodesHandler`), Sql (sql.go, with
--                 `GenericQueryHandler`), Hello (hello.go, relay.go)
--   Paths         Go's path/filepath on texts
--   Remote        remote/remote.go: sessions and commands; Remote/Copy: the copies of files;
--                 Remote/Dial: `NewSSHClient`; Remote/Log: what is called, in its order
--   Cert          cert/cert.go: paths; Cert/Authority: `MakeCaCert`; Cert/Sign: `Sign`; Cert/Service:
--                 the certificates and keys by name, and `TLSConfig`
--   Shell         utils/shell.go: commands; Shell/Names, Shell/Vault: names and secrets;
--                 Shell/Prompt: utils/prompt.go
--   Logging       utils/logging.go
--   Commands      commands: Query (queryCommand.go), Nodes (init.go, join.go), Sql (sql.go), Certs
--                 (cert.go), Deinit (deinit.go), Calls (c.go, q.go, call.go)
--   Examples      tests, and the theorems at concrete inputs
--
-- How the code is read. A text is the list of its bytes. An int is an integer with its wrap-around
-- to 64 bits. A function that may end the process by os.Exit, a fatal log message or a panic
-- returns an `Outcome`. What Go's packages, the drivers of MySQL and Redis, Docker and echo do is
-- a parameter over a state of theirs: the records `Driver`, `Queries`, `Files`, `Docker`,
-- `Spawner`, `Migrate`, `Redis`, `Exchange` and those of the other parts; where a theorem assumes
-- a law of one, it is among its hypotheses. A method that changes its receiver returns the new
-- one. Maps are association lists, so that a statement holds for each order of a range loop. Loops
-- are structural recursion on what is left: `Retry` on the attempts of its configuration, the
-- polls of `checkHealth` on the 600 rounds that 120 seconds have, the rounds of joining a group on
-- its 5 retries; none of them has fuel beside the bound that the code has itself.
--
-- What is left out. The mutexes: an operation is one step, and the goroutines of connecting to all
-- shards are steps in any order. The checks of the health of containers, which run at the same
-- time, are put one after the other. What the log is told, except in Logging, and the parts of a
-- configuration that are constants of a library. Of the command line, what only passes a flag on
-- has no part here.
pub mod Common
pub mod Strings
pub mod Strconv
pub mod Cert
pub mod Cluster
pub mod Commands
pub mod Container
pub mod Controllers
pub mod Errors
pub mod Backoff
pub mod Http
pub mod Logging
pub mod Mem
pub mod Migration
pub mod Paths
pub mod Remote
pub mod Shell
pub mod Sql
pub mod Tables
pub mod Examples
