-- ===== src/Tests/Statements.antt =====
-- A statement on a connection that answers.
use cpp_database.Prelude.{ℕ, ◌≡◌, refl, true, false, none, some, List, [], ◌∷◌, ap}
use cpp_database.Prelude.Text.{codes}
use cpp_database.Driver.{MysqlApi, Machine, Yields}
use cpp_database.Results
use cpp_database.Results.{MysqlResults}
use cpp_database.Executor.Statement.{StatementApi, execute_internal}
use cpp_database.Executor.Statement.Opened.{OpenedLaws}
use cpp_database.Executor.Statement.Closed.{execute_internal-closed}
use cpp_database.Tests.{executor}

abbrev tail : List ℕ → List ℕ
tail [] = []
tail (x ∷ xs) = xs

-- A client library that is no more than the statements that are allocated.
abbrev counting : MysqlApi
counting = record {
  World = List ℕ;
  init = λ w. (true, w);
  set_character_set = λ h c w. w;
  set_timeouts = λ h t w. w;
  real_connect = λ h o w. (true, w);
  close = λ h w. w;
  ping = λ h w. (true, w);
  autocommit = λ h b w. (true, w);
  real_query = λ h q w. (true, w);
  store_result = λ h w. (none, w);
  affected_rows = λ h w. 1;
  errno = λ h w. 2003;
  error = λ h w. codes "down";
  steady_milliseconds = λ w. (0, w);
  sleep = λ t w. w;
}

-- Statement 3 is allocated, and executing it fails.
abbrev statements : StatementApi (List ℕ)
statements = record {
  stmt_init = λ h w. (some 3, 3 ∷ w);
  stmt_prepare = λ p sql w. (true, w);
  stmt_field_count = λ p w. 0;
  stmt_param_count = λ p w. 0;
  stmt_bind_param = λ p binds w. (true, w);
  stmt_execute = λ p w. (false, w);
  stmt_errno = λ p w. 1062;
  stmt_error = λ p w. codes "duplicate";
  stmt_free_result = λ p w. (true, w);
  stmt_close = λ p w. tail w;
  status_ok = λ number message. false;
}

abbrev counting_laws : OpenedLaws counting statements
counting_laws = record {
  opened = λ w. w;
  inits = λ h w. refl;
  closes = λ p ps w e. ap tail e;
  prepares = λ p sql w. refl;
  binds = λ p args w. refl;
  executes = λ p w. refl;
  frees = λ p w. refl;
  pings = λ h w. refl;
}

abbrev before : Machine (List ℕ)
before = record { world = 8 ∷ []; live = 1 ∷ []; next = 2 }

execute_internal-closed_example :
    Yields
      (execute_internal ⦃api = counting⦄ ⦃stmts = statements⦄
        (executor true)
        (codes "insert")
        []
        (Results.init {Row = ℕ})
        before)
      λ (_, m'). (m'.live ≡ 1 ∷ []) × (m'.world ≡ 8 ∷ [])
execute_internal-closed_example =
    execute_internal-closed ⦃api = counting⦄ ⦃stmts = statements⦄ counting_laws (executor true)
      (codes "insert") [] (Results.init {Row = ℕ}) before refl refl (λ h w. refl) (λ p w. refl)
