-- ===== src/Lib.antt =====
-- The MySQL client of tRPC-Cpp: connections, the pools that keep them, the service proxy that uses
-- them, transactions, and the values that go in and out. All paths are below trpc/client/mysql.
--
-- How the parts interact. A user calls `MysqlServiceProxy` (mysql_service_proxy.h and .cc). It asks
-- `MysqlExecutorPoolManager` for the pool of an endpoint, the pool (`MysqlExecutorPool`) for a
-- connection (`MysqlExecutor`), runs the statement on it, and gives the connection back. The results
-- come in a `MysqlResults`. A transaction keeps its connection in a `TransactionHandle` until Commit
-- or Rollback gives it back to the pool.
--
-- The files:
--   Prelude, Prelude/*   numbers, Boolean tests, lists and bytes that the other files share.
--   Driver, Driver/*     the client library mysqlclient, the clock and sleeping, as a record of
--                        parameters `MysqlApi` over a world that they change; `Machine` adds the
--                        handles that are allocated, so that a use of a freed handle is the outcome
--                        `faults use_after_free`. `Io` is a call that changes the machine; Driver/Rules
--                        holds the rules for sequences and branches.
--   Executor, Executor/* executor/mysql_executor.h and .cc. A handle is a number, a null pointer
--                        is `none`. Executor/Native is QueryAll in mode NativeString,
--                        Executor/Statement the class `MysqlStatement` of executor/mysql_statement.h
--                        and .cc and the statements that return no rows, and Executor/Typed QueryAll
--                        in mode BindType. Executor/Rows has the buffers of QueryHandle and the loop
--                        of FetchResults; a vector's bytes have a place that changes when it grows,
--                        so that a write to where they were is the outcome `faults use_after_free`.
--   Pool, Pool/*         mysql_executor_pool.h and .cc, used by one thread at a time; Pool/Threads is
--                        a step relation for any number of threads that call GetExecutor and Reclaim,
--                        with one step for each section under a shard's lock, and Pool/Threads/Stopping
--                        adds a thread that calls Stop.
--   Manager, Manager/*   mysql_executor_pool_manager.h and .cc.
--   Framework            what the proxy uses of the framework: contexts, statuses, filters, the
--                        timeout test, the value of a failed future and the concurrent map, as
--                        parameters.
--   Transaction          transaction.h.
--   Proxy, Proxy/*       mysql_service_proxy.h and .cc: the synchronous calls, in Proxy/Async the
--                        asynchronous ones, whose futures are values that are ready or have failed,
--                        in Proxy/Overlap a step relation for the asynchronous calls in transactions
--                        whose futures are not done when the next call starts, and in
--                        Proxy/Lifecycle the start, the restart and the end of the proxy.
--   Results, Results/*   executor/mysql_results.h.
--   Config, Config/*     config/mysql_client_conf.h and mysql_client_conf_parser.h, over a
--                        parameter for the YAML library.
--   Time, Time/*         `MysqlTime` of executor/mysql_type.h and .cc; Time/Printf and Time/Extract are
--                        the formats and the stream operators that it uses.
--   Blob, Blob/*         `MysqlBlob` of the same files.
--   Binder, Binder/*     executor/mysql_binder.h and .cc: types of columns and the check of the fields.
--   Formatter, Formatter/* the class `Formatter` of executor/mysql_executor.h.
--   Tests, Tests/*       the theorems at concrete inputs.
--
-- Names are those of the source in lower case: `MysqlExecutor::CheckAlive` is `Executor.check_alive`.
-- An operation on an object takes the object and returns the new one with its answer. An assertion
-- that fails, a division by zero and an access out of bounds are outcomes too.
--
-- Bounds and fuel. Counters of type uint32_t wrap at 2 ^ 32. The loop of GetOrCreate runs at most 3
-- times and the loop of StartReconnect at most 5 times, as in the source, and recursion is on those
-- numbers. The loop of FetchResults runs on fuel, of which more than there are rows is enough; running
-- out of it is a fault. Every other recursion is on a list.
--
-- Not modelled: the codec, whose operations return constants, and the plugin, which registers it with
-- the framework; logging. Outside Pool/Threads and Proxy/Overlap a call runs to its end, with its task
-- on the thread pool and what is chained to its future, before the next one starts. Destroy of a pool
-- while other threads use it, and calls without a transaction that overlap, are not part of the model.
pub mod Prelude
pub mod Results
pub mod Config
pub mod Time
pub mod Binder
pub mod Blob
pub mod Formatter
pub mod Driver
pub mod Executor
pub mod Pool
pub mod Framework
pub mod Manager
pub mod Transaction
pub mod Proxy
pub mod Tests
