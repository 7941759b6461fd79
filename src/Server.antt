-- ===== src/Server.antt =====
-- unit/test_server.c and unit/test_server.h: the servers that the harness forks, which share the
-- job's processes and exchange messages over pipes through server 0.
pub mod Shares
pub mod Bytes
pub mod Procs
pub mod Messages
pub mod Requests
pub mod Launch
pub mod Start
pub mod Job
