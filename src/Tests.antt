-- ===== src/Tests.antt =====
-- The theorems at concrete inputs, and the values that the children share: a client library whose
-- world says whether the server accepts connections and answers, and what the clock shows.
mod Values
mod Statements
mod Rows
mod Fetches
mod Configs
mod Connections
mod Pools
mod Proxies
mod Contention
mod Callers
mod Stops
mod Served
mod Futures
mod Managers
mod Overlaps
mod Restarts
use cpp_database.Prelude.{ℕ, Bool, true, false, none, some, [], ◌∷◌}
use cpp_database.Prelude.Text.{codes}
use cpp_database.Driver.{MysqlApi, MysqlConnOption, StoredResult, Machine}
use cpp_database.Executor.{MysqlExecutor}

pub record Net : Type 0 where
  pub accepts : Bool
  pub answers : Bool
  pub clock : ℕ

-- One row with a value and a NULL.
abbrev pub stored : StoredResult
stored = record {
  res = 9;
  names = codes "id" ∷ codes "name" ∷ [];
  num_fields = 2;
  rows = (some (codes "1") ∷ none ∷ []) ∷ [];
}

abbrev pub net_api : MysqlApi
net_api = record {
  World = Net;
  init = λ w. (true, w);
  set_character_set = λ h c w. w;
  set_timeouts = λ h t w. w;
  real_connect = λ h o w. (w.accepts, w);
  close = λ h w. w;
  ping = λ h w. (w.answers, w);
  autocommit = λ h b w. (w.answers, w);
  real_query = λ h q w. (w.answers, w);
  store_result = λ h w. (some stored, w);
  affected_rows = λ h w. 1;
  errno = λ h w. 2003;
  error = λ h w. codes "down";
  steady_milliseconds = λ w. (w.clock, w);
  sleep = λ t w. w;
}

abbrev pub conn_option : MysqlConnOption
conn_option = record {
  hostname = codes "127.0.0.1";
  username = codes "root";
  password = codes "abc123";
  database = codes "test";
  port = 3306;
  char_set = codes "utf8mb4";
}

-- The network is up, or the server refuses and does not answer.
abbrev pub up : Net
up = record { accepts = true; answers = true; clock = 500 }

abbrev pub down : Net
down = record { accepts = false; answers = false; clock = 500 }

-- Handle 1 is allocated.
abbrev pub machine : Net → Machine Net
machine net = record { world = net; live = 1 ∷ []; next = 2 }

abbrev pub executor : Bool → MysqlExecutor
executor connected = record {
  is_connected = connected;
  auto_commit = true;
  mysql = some 1;
  alivetime = 100;
  executor_id = 0;
  option = conn_option;
}
