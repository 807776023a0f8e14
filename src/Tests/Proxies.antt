-- ===== src/Tests/Proxies.antt =====
-- The calls of the proxy at concrete inputs. A framework whose context is the last status that was
-- set, whose filters let every call pass, and a map that holds one pool at most.
use cpp_database.Prelude.{ℕ, ◌≡◌, refl, true, false, Option, none, some, [], ◌∷◌}
use cpp_database.Prelude.Text.{codes}
use cpp_database.Driver.{Ensures, faults, use_after_free}
use cpp_database.Driver.Calls.{release}
use cpp_database.Executor
use cpp_database.Executor.{MysqlExecutor}
use cpp_database.Pool
use cpp_database.Proxy.Begin.{begin_at, Starts, begin_at-Starts}
use cpp_database.Proxy.Refusals.{get_executor-refuse_connection}
use cpp_database.Results
use cpp_database.Results.{MysqlResults}
use cpp_database.Pool.{get_executor, MysqlExecutorPool}
use cpp_database.Framework.{Framework, PoolMap}
use cpp_database.Manager.{MysqlExecutorPoolManager}
use cpp_database.Transaction.{TransactionHandle, started, roll_backed, committed}
use cpp_database.Proxy.{refuse_connection, query, finish, commit, rollback, run_text}
use cpp_database.Proxy.Transactions.{
  QueryLeaves, query-QueryLeaves, FinishAnswers, finished_state, commit_ended,
}
use cpp_database.Tests.{Net, net_api, up, down, machine, executor}
use cpp_database.Tests.Pools.{option, addr, pool}

abbrev pub framework : Framework Net
framework = record {
  Status = ℕ;
  status_ok = λ n. true;
  framework_status = λ n t. n;
  unknown_error_status = λ t. 999;
  client_connect_err = 111;
  error_message = λ n. [];
  to_string = λ n. [];
  drop_request = λ c. c;
  Context = ℕ;
  get_status = λ n. n;
  set_status = λ c n. n;
  get_node_addr = λ c. addr;
  ip_empty = λ c. true;
  new_context = 0;
  select_target = λ c w. ((true, c), w);
  fill_client_context = λ c. c;
  run_message_client_filters = λ p c w. ((false, c), w);
  run_filters = λ p c w. ((0, c), w);
  check_timeout = λ c w. ((false, c), w);
  proxy_statistics = λ c w. (c, w);
  connection_failed = λ t. t;
  invalid_state = λ n. [];
  get_failed_value = λ t w. (false, w);
}

abbrev pub pool_map : PoolMap
pool_map = record {
  Map = Option MysqlExecutorPool;
  get = λ map key. map;
  get_or_insert = λ map key pool. (map, some pool);
  update = λ map key pool. some pool;
  keys = λ map. elim map [ none ↦ [] | some pool ↦ [] ∷ [] ];
  reclaim = λ map. none;
  empty = none;
}

abbrev pub manager : MysqlExecutorPoolManager ⦃pools = pool_map⦄
manager = record { executor_pools = none; option = option; pools_to_destroy = [] }

abbrev pub open_handle : TransactionHandle
open_handle = record { executor = some (executor true); state = started }

abbrev pub rolled_back : TransactionHandle
rolled_back = record { executor = none; state = roll_backed }

abbrev pub empty_results : MysqlResults Unit
empty_results = Results.init

query-QueryLeaves_example :
    Ensures
      (query ⦃api = net_api⦄ ⦃fw = framework⦄ 0 open_handle empty_results
        (run_text ⦃api = net_api⦄ ⦃fw = framework⦄ ⦃pools = pool_map⦄ (codes "select 1"))
        (machine up))
      λ ((_, h', res'), _).
        QueryLeaves ⦃api = net_api⦄ ⦃fw = framework⦄ open_handle empty_results h' res'
query-QueryLeaves_example =
    query-QueryLeaves ⦃api = net_api⦄ ⦃fw = framework⦄ 0 open_handle empty_results
      (run_text ⦃api = net_api⦄ ⦃fw = framework⦄ ⦃pools = pool_map⦄ (codes "select 1")) (machine up)

finished_state_example :
    Ensures
      (commit ⦃api = net_api⦄ ⦃fw = framework⦄ ⦃pools = pool_map⦄ 0 manager open_handle
        (machine up))
      (λ ((c', h', _), _).
        FinishAnswers ⦃api = net_api⦄ ⦃fw = framework⦄ ⦃pools = pool_map⦄ false
          (codes "commit")
          0
          open_handle
          (machine up)
          c'
          h')
    × Ensures
        (rollback ⦃api = net_api⦄ ⦃fw = framework⦄ ⦃pools = pool_map⦄ 0 manager open_handle
          (machine up))
        (λ ((c', h', _), _).
          FinishAnswers ⦃api = net_api⦄ ⦃fw = framework⦄ ⦃pools = pool_map⦄ true
            (codes "rollback")
            0
            open_handle
            (machine up)
            c'
            h')
finished_state_example =
    finished_state ⦃api = net_api⦄ ⦃fw = framework⦄ ⦃pools = pool_map⦄ 0 manager open_handle
      (machine up)

commit_ended_example :
    (commit ⦃api = net_api⦄ ⦃fw = framework⦄ ⦃pools = pool_map⦄ 0 manager rolled_back (machine up)
      ≡ finish ⦃api = net_api⦄ ⦃fw = framework⦄ ⦃pools = pool_map⦄ false
          (codes "x")
          0
          manager
          rolled_back
          (machine up))
    × Ensures
        (commit ⦃api = net_api⦄ ⦃fw = framework⦄ ⦃pools = pool_map⦄ 0 manager rolled_back
          (machine up))
        (λ ((_, h', _), _). h'.state ≡ committed)
commit_ended_example =
    commit_ended ⦃api = net_api⦄ ⦃fw = framework⦄ ⦃pools = pool_map⦄ 0 manager rolled_back
      (codes "x") (machine up) refl

-- A pool with no connection, whose server refuses: the new object, after its first connection failed.
abbrev refused : MysqlExecutor
refused = record {
  is_connected = false;
  auto_commit = true;
  mysql = some 2;
  alivetime = 0;
  executor_id = 0;
  option = Pool.conn_option_of (pool 0 [] []);
}

get_executor-refuse_connection_example :
    refuse_connection ⦃api = net_api⦄ ⦃fw = framework⦄ 0 refused
      (record { world = down; live = 1 ∷ []; next = 3 })
    ≡ faults use_after_free
unfolding get_executor Pool.get_or_create Pool.shard_at Pool.take_idle Pool.hand_out
    Pool.create_executor Pool.connect_new Executor.construct Executor.connect release
get_executor-refuse_connection_example =
    get_executor-refuse_connection ⦃api = net_api⦄ ⦃fw = framework⦄ 0 (pool 0 [] [])
      (record (pool 0 [] []) { shard_id_gen = 1; executor_id_gen = 1 }) refused (machine down)
      (record { world = down; live = 1 ∷ []; next = 3 }) refl refl

begin_at-Starts_example :
    Ensures
      (begin_at ⦃api = net_api⦄ ⦃fw = framework⦄ ⦃pools = pool_map⦄ 0 manager addr none
        (machine up))
      λ ((_, _, handle'), _).
        Starts ⦃api = net_api⦄ ⦃fw = framework⦄ ⦃pools = pool_map⦄ 0 manager addr
          (machine up)
          handle'
begin_at-Starts_example =
    begin_at-Starts ⦃api = net_api⦄ ⦃fw = framework⦄ ⦃pools = pool_map⦄ 0 manager addr none
      (machine up)
