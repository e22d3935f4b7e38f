-- ===== src/Examples.antt =====
-- Tests of the definitions on concrete inputs, and the theorems at concrete inputs.
mod World
mod Text
mod Backoff
mod Cert
mod Cluster
mod Commands
mod Containers
mod Controllers
mod Mem
mod Migration
mod Remote
mod Replica
mod Shell
mod Sql
mod Tables
