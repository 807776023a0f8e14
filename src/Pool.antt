-- ===== src/Pool.antt =====
-- trpc/client/mysql/mysql_executor_pool.h and mysql_executor_pool.cc: the class
-- `MysqlExecutorPool`, used by one thread. The head of a list of idle connections is the back of
-- the std::list. A counter of type uint32_t wraps.
pub mod Shards
pub mod Threads
pub mod Capacity
pub mod Identity
pub mod Handed
pub mod Naming
pub mod Histories
use cpp_database.Prelude.{
  ℕ, zero, suc, ◌+◌, ◌*◌, ◌/◌, ◌%◌, ◌^◌, Bool, true, false, Option, none, some, List, [], ◌∷◌,
  length, get_elem?, set, replicate, ltb, leb, ◌==◌, ◌&&◌,
}
use cpp_database.Prelude.Text.{Bytes}
use cpp_database.Driver.{
  MysqlApi, MysqlConnOption, Machine, Outcome, returns, faults, division_by_zero, out_of_bounds, Io,
  pure, when◌then◌else◌, ◌>>=◌, ◌>>◌,
}
use cpp_database.Executor
use cpp_database.Executor.{
  MysqlExecutor, connect, close, check_alive, get_alive_time, refresh_alive_time,
}

pub record NodeAddr : Type 0 where
  pub ip : Bytes
  pub port : ℕ

pub record MysqlExecutorPoolOption : Type 0 where
  pub max_size : ℕ
  pub max_idle_time : ℕ
  pub num_shard_group : ℕ
  pub dbname : Bytes
  pub username : Bytes
  pub password : Bytes
  pub char_set : Bytes

abbrev pub Shard : Type 0
Shard = List MysqlExecutor

pub record MysqlExecutorPool : Type 0 where
  pub option : MysqlExecutorPoolOption
  pub open option use *
  pub target : NodeAddr
  pub executor_num : ℕ
  pub max_num_per_shard : ℕ
  pub shards : List Shard
  pub shard_id_gen : ℕ
  pub executor_id_gen : ℕ

abbrev pub conn_retry_num : ℕ
conn_retry_num = 3

-- fetch_add(1) on a uint32_t: the value after it.
abbrev pub next_u32 : ℕ → ℕ
next_u32 n = (n + 1) % 2 ^ 32

abbrev pub conn_option_of : MysqlExecutorPool → MysqlConnOption
conn_option_of p = record {
  hostname = p.target.ip;
  username = p.username;
  password = p.password;
  database = p.dbname;
  port = p.target.port;
  char_set = p.char_set;
}

-- The shard's number in the upper half, and a running number in the lower.
abbrev pub executor_id_of : ℕ → ℕ → ℕ
executor_id_of shard_id serial = shard_id * 2 ^ 32 + serial

-- The upper half of the number, as a uint32_t.
abbrev pub shard_id_of : ℕ → ℕ
shard_id_of executor_id = executor_id / 2 ^ 32 % 2 ^ 32

module _ ⦃api : MysqlApi⦄ where
  -- The constructor; std::ceil is applied to a quotient that has been rounded down already.
  unfoldable pub construct : MysqlExecutorPoolOption → NodeAddr → Io MysqlExecutorPool
  construct option node_addr =
      when option.num_shard_group == 0
      then (λ m. faults division_by_zero)
      else pure (record {
        option = option;
        target = node_addr;
        executor_num = 0;
        max_num_per_shard = option.max_size / option.num_shard_group;
        shards = replicate option.num_shard_group [];
        shard_id_gen = 0;
        executor_id_gen = 0;
      })

  -- executor_shards_[shard_id % num_shard_group].
  unfoldable pub shard_at : MysqlExecutorPool → ℕ → Io (ℕ × Shard)
  shard_at p shard_id m = elim (p.num_shard_group == 0) [
    | true ↦ faults division_by_zero
    | false ↦ elim (get_elem? p.shards (shard_id % p.num_shard_group)) [
      | none ↦ faults out_of_bounds
      | some shard ↦ returns ((shard_id % p.num_shard_group, shard), m)
    ]
  ]

  unfoldable pub is_idle_timeout : ℕ → MysqlExecutor → Io Bool
  unfolding get_alive_time
  is_idle_timeout max_idle_time e = when max_idle_time == 0 then pure false else do
    alive_time ← get_alive_time e
    when ltb alive_time max_idle_time then pure false else pure true

  -- Whether the connection answers and has not been idle for too long.
  unfoldable pub is_usable : ℕ → MysqlExecutor → Io (Bool × MysqlExecutor)
  unfolding is_idle_timeout
  is_usable max_idle_time e = do
    (alive, e') ← check_alive e
    when alive
        then (do
          timeout ← is_idle_timeout max_idle_time e'
          when timeout then pure (false, e') else pure (true, e'))
        else pure (false, e')

  -- The loop of GetOrCreate over one shard, with the retries that are left. A connection that is
  -- given up is closed and destroyed.
  unfoldable pub take_idle : ℕ → ℕ → Shard → Io (Option MysqlExecutor × Shard)
  take_idle max_idle_time zero shard = pure (none, shard)
  take_idle max_idle_time (suc retry_num) [] = pure (none, [])
  take_idle max_idle_time (suc retry_num) (e ∷ shard) =
      let rest = take_idle max_idle_time retry_num shard in
      is_usable max_idle_time e >>= λ r.
      when r.0
      then pure (some r.1, shard)
      else (close r.1 >>= λ closed. Executor.destroy closed >> rest)

  unfoldable pub create_executor : MysqlExecutorPool → ℕ → Io (MysqlExecutor × MysqlExecutorPool)
  create_executor p shard_id = do
    e ← Executor.construct (conn_option_of p)
    pure (
      record e { executor_id = executor_id_of shard_id p.executor_id_gen },
      record p { executor_id_gen = next_u32 p.executor_id_gen },
    )

  unfoldable pub connect_new :
      MysqlExecutor × MysqlExecutorPool → Io (MysqlExecutor × MysqlExecutorPool)
  connect_new (e, p) = do
    (done, e') ← connect e
    when done then pure (e', record p { executor_num = next_u32 p.executor_num }) else pure (e', p)

  unfoldable pub hand_out :
      MysqlExecutorPool → ℕ → Option MysqlExecutor → Io (MysqlExecutor × MysqlExecutorPool)
  hand_out p shard_id (some e) = pure (e, p)
  hand_out p shard_id none = create_executor p shard_id >>= connect_new

  unfoldable pub get_or_create : MysqlExecutorPool → Io (MysqlExecutor × MysqlExecutorPool)
  get_or_create pool = do
    let shard_id = pool.shard_id_gen
    let p = record pool { shard_id_gen = next_u32 pool.shard_id_gen }
    (i, shard) ← shard_at p shard_id
    (found, rest) ← take_idle p.max_idle_time conn_retry_num shard
    let q = record p { shards = set p.shards i rest }
    hand_out q shard_id found

  unfoldable pub get_executor : MysqlExecutorPool → Io (MysqlExecutor × MysqlExecutorPool)
  unfolding get_or_create
  get_executor = get_or_create

  unfoldable pub discard :
      MysqlExecutorPool → MysqlExecutor → Io (Option MysqlExecutor × MysqlExecutorPool)
  discard p e = do e' ← close e; pure (some e', record p { executor_num = next_u32 p.executor_num })

  -- What the caller is left with: nothing, if the pool has taken the object, or the closed object.
  unfoldable pub reclaim :
      MysqlExecutorPool → ℕ → MysqlExecutor → Io (Option MysqlExecutor × MysqlExecutorPool)
  reclaim p ret e =
      when ret == 0
      then (do
        (i, shard) ← shard_at p (shard_id_of e.executor_id)
        when leb (length shard) p.max_num_per_shard && leb p.executor_num p.max_size
            then (do
              e' ← refresh_alive_time e
              pure (none, record p { shards = set p.shards i (e' ∷ shard) }))
            else discard p e)
      else discard p e

  unfoldable pub close_all : Shard → Io Shard
  close_all [] = pure []
  close_all (e ∷ shard) = close e >>= λ e'. close_all shard >>= λ shard'. pure (e' ∷ shard')

  unfoldable pub stop_shards : List Shard → Io (List Shard)
  stop_shards [] = pure []
  stop_shards (shard ∷ shards) =
      close_all shard >>= λ shard'. stop_shards shards >>= λ shards'. pure (shard' ∷ shards')

  -- The objects are shared with the shards, which therefore hold the closed objects afterwards.
  unfoldable pub stop : MysqlExecutorPool → Io MysqlExecutorPool
  stop p = do shards ← stop_shards p.shards; pure (record p { shards = shards })

  unfoldable pub destroy_all : Shard → Io (Unit {0})
  destroy_all [] = pure tt
  destroy_all (e ∷ shard) = Executor.destroy e >> destroy_all shard

  unfoldable pub destroy_shards : List Shard → Io (List Shard)
  destroy_shards [] = pure []
  destroy_shards (shard ∷ shards) =
      destroy_all shard >> (destroy_shards shards >>= λ shards'. pure ([] ∷ shards'))

  unfoldable pub destroy : MysqlExecutorPool → Io MysqlExecutorPool
  destroy p = do shards ← destroy_shards p.shards; pure (record p { shards = shards })
