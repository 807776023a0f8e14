-- ===== src/Proxy/Lifecycle.antt =====
-- The start and the end of `MysqlServiceProxy` in mysql_service_proxy.cc: InitManager,
-- InitThreadPool, SetServiceProxyOptionInner, Stop, Destroy, SetMysqlConfig and SetConfigFromFile.
pub mod Restart
use cpp_database.Prelude.{
  ℕ, Bool, true, false, not, Option, none, some, is_some, List, [], ◌∷◌, if◌then◌else◌,
}
use cpp_database.Prelude.Text.{is_empty, Bytes, codes, same}
use cpp_database.Driver.{MysqlApi, faults, null_handle, Io, pure, when◌then◌else◌, ◌>>=◌, ◌>>◌}
use cpp_database.Config.{Yaml, MysqlClientConf, default_conf, decode}
use cpp_database.Framework.{PoolMap, effect}
use cpp_database.Manager
use cpp_database.Manager.{MysqlExecutorPoolManager}
use cpp_database.Proxy.Begin.{pool_option}

-- trpc::ThreadPool, the binding of its threads, and the base class.
pub record Threads (World : Type 0) : Type 0 where
  -- std::make_unique<ThreadPool> with thread_num and bind_core.
  pub create : ℕ → Bool → World → World
  pub parse_bind_core_group : Bytes → World → World
  pub start : World → World
  pub stop : World → World
  pub join : World → World
  -- ServiceProxy::Stop and ServiceProxy::Destroy.
  pub base_stop : World → World
  pub base_destroy : World → World

-- ThreadPoolOption.
pub record ThreadPoolOption : Type 0 where
  pub thread_num : ℕ
  pub bind_core : Bool

module _ ⦃pools : PoolMap⦄ where
  -- The members, with the part of the service proxy's option that is read.
  pub record MysqlServiceProxy : Type 0 where
    pub name : Bytes
    pub max_conn_num : ℕ
    pub idle_time : ℕ
    pub mysql_conf : MysqlClientConf
    pub thread_pool : Option ThreadPoolOption
    pub pool_manager : Option MysqlExecutorPoolManager

  unfoldable pub init_manager : MysqlServiceProxy → Bool × MysqlServiceProxy
  init_manager p = if is_some p.pool_manager then (false, p) else (
    true,
    record p {
      pool_manager = some (Manager.construct (pool_option p.max_conn_num p.idle_time p.mysql_conf));
    },
  )

module _ ⦃yaml : Yaml⦄ where
  -- The configuration of the services with the name, `none` where the YAML library throws.
  unfoldable pub set_config_from_file :
      List yaml.Node → Bytes → MysqlClientConf → Option MysqlClientConf
  unfolding decode
  set_config_from_file [] name conf = some conf
  set_config_from_file (idx ∷ rest) name conf =
      let next = λ (c : MysqlClientConf). set_config_from_file rest name c in
      elim (text_of (yaml.index idx (codes "name"))) [
        | none ↦ none
        | some found ↦ elim (if same found name then read idx else some conf) [
          | none ↦ none
          | some c ↦ next c
        ]
      ]
    where
      text_of : Option yaml.Node → Option Bytes
      text_of none = none
      text_of (some node) = yaml.as_string node

      read : yaml.Node → Option MysqlClientConf
      read node = elim (yaml.index node (codes "mysql")) [
        | none ↦ none
        | some value ↦ decode value default_conf
      ]

module _ ⦃api : MysqlApi⦄ ⦃threads : Threads api.World⦄ ⦃pools : PoolMap⦄ where
  -- A call that changes only the world.
  abbrev pub does : (api.World → api.World) → Io (Unit {0})
  does call = effect (λ w. (tt, call w))

  abbrev pub thread_pool_option : MysqlClientConf → ThreadPoolOption
  thread_pool_option conf = record {
    thread_num = conf.thread_num;
    bind_core = not (is_empty conf.thread_bind_core);
  }

  unfoldable pub init_thread_pool : MysqlServiceProxy → Io (Bool × MysqlServiceProxy)
  init_thread_pool p = when is_some p.thread_pool then pure (false, p) else do
    let option = thread_pool_option p.mysql_conf
    does (threads.create option.thread_num option.bind_core)
    does (threads.parse_bind_core_group p.mysql_conf.thread_bind_core)
    does threads.start
    does (threads.parse_bind_core_group [])
    pure (true, record p { thread_pool = some option })

  -- SetServiceProxyOptionInner, once the configuration has been read.
  unfoldable pub set_service_proxy_option_inner :
      MysqlServiceProxy → MysqlClientConf → Io MysqlServiceProxy
  unfolding init_thread_pool init_manager
  set_service_proxy_option_inner p conf = do
    (_, p₁) ← init_thread_pool (record p { mysql_conf = conf })
    pure (init_manager p₁).1

  -- A call on thread_pool_.
  unfoldable pub on_thread_pool : MysqlServiceProxy → (api.World → api.World) → Io (Unit {0})
  on_thread_pool p call = elim p.thread_pool [
    | none ↦ (λ m. faults null_handle)
    | some t ↦ does call
  ]

  -- A call on pool_manager_.
  unfoldable pub on_manager :
      MysqlServiceProxy
      → (MysqlExecutorPoolManager → Io MysqlExecutorPoolManager)
      → Io MysqlServiceProxy
  on_manager p call = elim p.pool_manager [
    | none ↦ (λ m. faults null_handle)
    | some manager ↦ call manager >>= λ ended. pure (record p { pool_manager = some ended })
  ]

  unfoldable pub stop : MysqlServiceProxy → Io MysqlServiceProxy
  unfolding on_thread_pool on_manager
  stop p = do does threads.base_stop; on_thread_pool p threads.stop; on_manager p Manager.stop

  unfoldable pub destroy : MysqlServiceProxy → Io MysqlServiceProxy
  unfolding on_thread_pool on_manager
  destroy p = do
    does threads.base_destroy
    on_thread_pool p threads.join
    on_manager p Manager.destroy

  unfoldable pub set_mysql_config : MysqlServiceProxy → MysqlClientConf → Io MysqlServiceProxy
  unfolding on_thread_pool on_manager init_thread_pool init_manager
  set_mysql_config p conf = do
    let p₁ = record p { mysql_conf = conf }
    on_thread_pool p₁ threads.stop
    on_thread_pool p₁ threads.join
    p₂ ← on_manager (record p₁ { thread_pool = none }) Manager.stop
    p₃ ← on_manager p₂ Manager.destroy
    (_, p₄) ← init_thread_pool (record p₃ { pool_manager = none })
    pure (init_manager p₄).1
