-- ===== src/Config.antt =====
-- trpc/client/mysql/config/mysql_client_conf.h and mysql_client_conf_parser.h: the configuration and
-- its conversion to and from YAML. The YAML library is a parameter.
pub mod RoundTrip
use cpp_database.Prelude.{ℕ, ◌≡◌, ◌<◌, ◌^◌, Bool, Option, none, some, if◌then◌else◌}
use cpp_database.Prelude.Text.{Bytes, codes, same}

-- YAML::Node. A read as a type that the node does not have throws an exception, which is `none`.
pub record Yaml : Type 1 where
  pub Node : Type 0
  pub empty : Node
  pub of_string : Bytes → Node
  pub of_number : ℕ → Node
  -- node[key] = value.
  pub assign : Node → Bytes → Node → Node
  -- node[key], `none` where it is not defined.
  pub index : Node → Bytes → Option Node
  -- node.as<std::string>().
  pub as_string : Node → Option Bytes
  -- node.as<T>() at an unsigned type with a number of bits.
  pub as_number : ℕ → Node → Option ℕ

pub record MysqlClientConf : Type 0 where
  pub user_name : Bytes
  pub password : Bytes
  pub dbname : Bytes
  pub char_set : Bytes
  pub thread_num : ℕ
  pub thread_bind_core : Bytes
  pub num_shard_group : ℕ

abbrev pub default_conf : MysqlClientConf
default_conf = record {
  user_name = codes "";
  password = codes "";
  dbname = codes "";
  char_set = codes "utf8mb4";
  thread_num = 4;
  thread_bind_core = codes "";
  num_shard_group = 4;
}

-- An exception ends the conversion.
infixl 20 ◌>>=◌
abbrev pub ◌>>=◌ : {A B : Type 0} → Option A → (A → Option B) → Option B
none >>= f = none
some a >>= f = f a

module _ ⦃yaml : Yaml⦄ where
  unfoldable pub encode : MysqlClientConf → yaml.Node
  encode conf =
      let n₁ = yaml.assign yaml.empty (codes "user_name") (yaml.of_string conf.user_name) in
      let n₂ = yaml.assign n₁ (codes "password") (yaml.of_string conf.password) in
      let n₃ = yaml.assign n₂ (codes "dbname") (yaml.of_string conf.dbname) in
      let n₄ = yaml.assign n₃ (codes "char_set") (yaml.of_string conf.char_set) in
      let n₅ = yaml.assign n₄ (codes "thread_num") (yaml.of_number conf.thread_num) in
      let n₆ = yaml.assign n₅ (codes "thread_bind_core") (yaml.of_string conf.thread_bind_core) in
      yaml.assign n₆ (codes "num_shard_group") (yaml.of_number conf.num_shard_group)

  -- A member that the node does not have keeps its value.
  unfoldable pub read_string : yaml.Node → Bytes → Bytes → Option Bytes
  read_string node key old = elim (yaml.index node key) [
    | none ↦ some old
    | some value ↦ yaml.as_string value
  ]

  unfoldable pub read_number : ℕ → yaml.Node → Bytes → ℕ → Option ℕ
  read_number bits node key old = elim (yaml.index node key) [
    | none ↦ some old
    | some value ↦ yaml.as_number bits value
  ]

  -- decode; size_t has 64 bits.
  unfoldable pub decode : yaml.Node → MysqlClientConf → Option MysqlClientConf
  decode node conf = do
    user_name ← read_string node (codes "user_name") conf.user_name
    password ← read_string node (codes "password") conf.password
    dbname ← read_string node (codes "dbname") conf.dbname
    char_set ← read_string node (codes "char_set") conf.char_set
    thread_num ← read_number 64 node (codes "thread_num") conf.thread_num
    thread_bind_core ← read_string node (codes "thread_bind_core") conf.thread_bind_core
    num_shard_group ← read_number 32 node (codes "num_shard_group") conf.num_shard_group
    some (record {
      user_name = user_name;
      password = password;
      dbname = dbname;
      char_set = char_set;
      thread_num = thread_num;
      thread_bind_core = thread_bind_core;
      num_shard_group = num_shard_group;
    })
