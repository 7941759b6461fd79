-- ===== src/Lib.antt =====
-- A model of the test programs of pmix-tests: the unit test harness (unit/), which starts one or
-- several test servers that fork client processes and serve their PMIx calls, these clients, those of
-- the PMI libraries, the server of the simple tests (simple/), and the filter for the output of the
-- debugger tests.
--
-- Cli (unit/cli_stages.c, unit/cli_stages.h) is the table of client processes: each entry passes
-- the stages forked, finalized and terminated; a wrong stage sets `test_abort`. Cli.Table has the
-- loops over the table, which reap and kill the processes. `server_launch_clients` in
-- unit/test_server.c writes the entries and the callback `finalized` moves them on.
--
-- Published and Callbacks (unit/server_callbacks.c) are the functions that the PMIx server library
-- calls: published data, and the callbacks that look after clients.
--
-- Server (unit/test_server.c, unit/test_server.h, and the loop for the first rank in main of
-- unit/pmix_test.c) is several servers at work: Server.Shares divides the processes of the job,
-- Server.Bytes has the bytes that memcpy writes and reads, Server.Procs the exchange of the maps
-- from ranks to servers, Server.Messages the messages over server 0 with the barrier and the fence
-- that it collects, Server.Requests the direct modex, and Server.Launch the namespace that a
-- server enters before it starts its clients. `fencenb_fn` and `dmodex_fn` of
-- unit/server_callbacks.c, which start these, are in Server.Requests.
--
-- Server.Start is how the servers come to be and end: server_init, srv_wait_all and server_finalize;
-- Server.Job is set_namespace, which tells the PMIx library of a namespace.
-- Driver is what unit/pmix_test.c runs with all this: Driver has server_launch_clients and
-- wait_signal_callback of unit/test_server.c, and Driver.Main the main function, in which the
-- progress thread's callbacks run at given places between the rounds of the wait for the clients.
--
-- Options (unit/test_common.c, unit/test_common.h, unit/utils.c) is the command line: Options.Numbers
-- reads and prints numbers, Options.Ranges and Options.Replace read the operands of --fence, --noise
-- and --test-replace, Options.Params is test_params, Options.Command is parse_cmd, Options.ClientArgs writes the arguments of the
-- clients, and Options.Distribution reads --ns-dist.
--
-- Pmi (unit/pmi_client.c, unit/pmi2_client.c) is the two clients of the PMI libraries: Pmi has what
-- they share, Pmi.Pmi2 and Pmi.Pmi1 the items of each over a library that is a parameter.
--
-- Clients (unit/pmix_client.c and the tests that it runs) is the client of the harness over the PMIx
-- library, which is a parameter: Clients has the macros PUT, GET and FENCE of unit/test_common.h,
-- Clients.Store what a library promises a process about its own data, Clients.Fence and
-- Clients.JobFence unit/test_fence.c, with Clients.Fence.Shared for what a commit and a fence of the
-- library do, Clients.Publish unit/test_publish.c, Clients.Replace unit/test_replace.c,
-- Clients.Internal unit/test_internal.c, with Clients.Texts for what these two share, Clients.Spawn
-- unit/test_spawn.c, Clients.Connect unit/test_cd.c, Clients.Resolve unit/test_resolve_peers.c,
-- Clients.Events unit/test_error.c, and Clients.Main the main function. A body of code goes on, returns,
-- waits without end or is undefined (`Step`). Clients.Publish.Served joins a client
-- with the server callbacks of Published.
--
-- Simptest (simple/simptest.c) is the server of the simple tests: Simptest has the module functions
-- that the PMIx library calls, Simptest.Lookup the published data, Simptest.Reap the signal handler
-- that takes the ends of the children into the table, and Simptest.Main the command line and `main`.
--
-- Tcfilter (prrte/debug/tcfilter.c) is the filter for the output of the debugger tests: its buffer,
-- its table of names and its scan, over a parameter for `regexec`.
--
-- State is passed explicitly: a client with `test_abort` and the system calls made (`Stage`), the
-- table with the same (`World`), the globals of the callbacks (`Server`), a server process
-- (`Node`). What can go wrong in memory, an assertion and abort() are the outcome `fault` of
-- `Run`; `out_of_fuel` is a bound that was too small. `cli_cleanup` has fuel 6, one for each stage
-- of the table. The loop of `server_unpack_procs` has the number
-- of bytes as fuel, and each of its rounds reads a byte at least.
--
-- Numbers are natural numbers, process ids and descriptors are integers; ids and ranks in messages
-- are bounded by their 4 bytes and sizes by their 8 bytes. PMIX_MAX_NSLEN and PMIX_MAX_KEYLEN are
-- parameters. Tests has the theorems at concrete inputs.
--
-- Not modelled: the PMIx library itself, threads and locks (a server waits outside of the
-- functions), failing reads and writes of pipes, the registrations
-- with libevent, log output, and the copies of the PMIx library's
-- support code (unit/argv.c, unit/unit_list.c, unit/pmix_object.c, unit/unit_progress_threads.c);
-- and the programs outside of unit/ that no part above names.
pub mod Base
pub mod Cli
pub mod Published
pub mod Callbacks
pub mod Server
pub mod Options
pub mod Pmi
pub mod Tcfilter
pub mod Simptest
pub mod Driver
pub mod Clients
pub mod Tests
