-- ===== src/Framework.antt =====
-- What the proxy uses of the trpc framework: contexts, statuses, filters, the timeout test, and the
-- map of pools. None of it is defined in this repository.
use cpp_database.Prelude.{ℕ, Bool, Option, List}
use cpp_database.Prelude.Text.{Bytes}
use cpp_database.Driver.{MysqlApi, returns, Io}
use cpp_database.Pool.{NodeAddr, MysqlExecutorPool}

pub data FilterPoint : Type 0 where
  client_pre_rpc_invoke client_post_rpc_invoke client_pre_send_msg client_post_recv_msg :
      FilterPoint

pub record Framework (World : Type 0) : Type 1 where
  pub Status : Type 0
  pub status_ok : Status → Bool
  -- A default status with a framework code and a message.
  pub framework_status : ℕ → Bytes → Status
  -- kUnknownErrorStatus with a message.
  pub unknown_error_status : Bytes → Status
  -- TRPC_CLIENT_CONNECT_ERR.
  pub client_connect_err : ℕ
  -- ErrorMessage and ToString of a status.
  pub error_message : Status → Bytes
  pub to_string : Status → Bytes
  pub Context : Type 0
  pub get_status : Context → Status
  pub set_status : Context → Status → Context
  -- SetRequestData(nullptr).
  pub drop_request : Context → Context
  pub get_node_addr : Context → NodeAddr
  -- context->GetIp().empty().
  pub ip_empty : Context → Bool
  -- MakeRefCounted<ClientContext>(codec).
  pub new_context : Context
  pub select_target : Context → World → (Bool × Context) × World
  pub fill_client_context : Context → Context
  -- RunMessageClientFilters; the answer is true for FilterStatus::REJECT.
  pub run_message_client_filters : FilterPoint → Context → World → (Bool × Context) × World
  -- RunFilters.
  pub run_filters : FilterPoint → Context → World → (ℕ × Context) × World
  pub check_timeout : Context → World → (Bool × Context) × World
  pub proxy_statistics : Context → World → Context × World
  -- The texts that util::FormatString makes: of a failed connection, and of a state's number.
  pub connection_failed : Bytes → Bytes
  pub invalid_state : ℕ → Bytes
  -- GetValue of a future that has failed with a message: whether it returns, where it does not abort.
  pub get_failed_value : Bytes → World → Bool × World

-- concurrency::LightlyConcurrentHashMap<std::string, MysqlExecutorPool*>. `update` is a change of
-- the pool behind a pointer in the map.
pub record PoolMap : Type 1 where
  pub Map : Type 0
  pub get : Map → Bytes → Option MysqlExecutorPool
  -- GetOrInsert: the pool that is there already, if any, and the map after the call.
  pub get_or_insert : Map → Bytes → MysqlExecutorPool → Option MysqlExecutorPool × Map
  pub update : Map → Bytes → MysqlExecutorPool → Map
  -- GetAllItems, of which a pool is named by its key.
  pub keys : Map → List Bytes
  -- Reclaim.
  pub reclaim : Map → Map
  pub empty : Map

module _ ⦃api : MysqlApi⦄ {A : Type 0} where
  -- A call of the framework.
  abbrev pub effect : (api.World → A × api.World) → Io A
  effect call m = let (a, w) = call m.world in returns (a, record m { world = w })
