-- ===== src/Executor/Typed/Answered.antt =====
-- QueryAll for typed results, where every call on the statement succeeds.
use cpp_database.Prelude.{
  ℕ, ◌<◌, ◌≡◌, refl, ap, ◌∙◌, Bool, true, Option, none, some, List, ◌++◌, map, length, arith, ◌==◌,
}
use cpp_database.Prelude.Text.{Bytes}
use cpp_database.Driver.{MysqlApi, Machine, Io, Yields}
use cpp_database.Driver.Calls.{contains, on_handle}
use cpp_database.Driver.Rules.{Yields-bind, Yields-weaken, Yields-when}
use cpp_database.Binder.{CType, MysqlField, InputBind}
use cpp_database.Executor.{MysqlExecutor}
use cpp_database.Executor.Native.{flag_of}
use cpp_database.Executor.Statement.{
  StatementApi, MysqlStatement, construct, prepare, init, on_statement, run_statement, leave,
}
use cpp_database.Executor.Statement.Calls.{Frees}
use cpp_database.Executor.Statement.Leaks.{leave_lem}
use cpp_database.Executor.Rows.{RowsApi, Column, limits, open_column, fetch_results}
use cpp_database.Executor.Rows.Laws.{Row, RowsLaws, AllFitButLast, RowsRead}
use cpp_database.Executor.Rows.Fetched.{Appended, Received}
use cpp_database.Executor.Rows.Opened.{shape_of, fetch_results-Received}
use cpp_database.Executor.Typed.{
  with_pointer, get_results_meta, names, fetch_fields, bind_outputs, run_bound, receive,
}
use cpp_database.Results.{MysqlResults, set_fields_name}

module _ ⦃api : MysqlApi⦄ ⦃stmts : StatementApi api.World⦄ ⦃rows : RowsApi api.World⦄
    (laws : RowsLaws rows) where
  -- Every call on the statement succeeds: the statement is `p`, its result has the fields and, once
  -- it is stored, the rows.
  pub record Accepts (conn : ℕ) (query : Bytes) (binds : List InputBind) (fields : List MysqlField)
      (p : ℕ) (rs : List Row) : Type 0 where
    pub inits : (w : api.World) → (stmts.stmt_init conn w).0 ≡ some p
    pub prepares : (w : api.World) → (stmts.stmt_prepare p query w).0 ≡ true
    pub counts : (w : api.World) → stmts.stmt_field_count p w ≡ length fields
    pub describes : (w : api.World) → (rows.stmt_result_metadata p w).0 ≡ some fields
    pub binds_input : (w : api.World) → (stmts.stmt_bind_param p binds w).0 ≡ true
    pub binds_output :
        (ls : List (Option ℕ)) (w : api.World) → (rows.stmt_bind_result p ls w).0 ≡ true
    pub executes : (w : api.World) → (stmts.stmt_execute p w).0 ≡ true
    pub stores : (w : api.World) → (rows.stmt_store_result p w).0 ≡ true
    pub has_rows : (w : api.World) → laws.remaining p (rows.stmt_store_result p w).1 ≡ rs

module _ ⦃api : MysqlApi⦄ ⦃stmts : StatementApi api.World⦄ where
  pub on_statement-Yields :
      (s : MysqlStatement) (p : ℕ) (call : ℕ → api.World → Bool × api.World) (m : Machine api.World)
      → s.mysql_stmt ≡ some p
      → (call p m.world).0 ≡ true
      → Yields (on_statement s call m) λ (done, m'). (done ≡ true) × (m'.live ≡ m.live)
  unfolding on_statement
  on_statement-Yields s p call m q e = rw q (e, refl)

  on_handle-Yields :
      {A : Type 0} (handle : Option ℕ) (h : ℕ) (call : ℕ → api.World → A × api.World)
      (m : Machine api.World) (a : A)
      → handle ≡ some h
      → contains h m.live ≡ true
      → (call h m.world).0 ≡ a
      → Yields (on_handle handle call m) λ (x, m'). (x ≡ a) × (m'.live ≡ m.live)
  unfolding on_handle
  on_handle-Yields handle h call m a there live e = rw (there, live, on_handle) (e, refl)

  pub init-Yields :
      (handle : Option ℕ) (conn p fields : ℕ) (query : Bytes) (m : Machine api.World)
      → handle ≡ some conn
      → contains conn m.live ≡ true
      → ((w : api.World) → (stmts.stmt_init conn w).0 ≡ some p)
      → ((w : api.World) → (stmts.stmt_prepare p query w).0 ≡ true)
      → ((w : api.World) → stmts.stmt_field_count p w ≡ fields)
      → Yields (init (construct handle) query m) λ ((done, s), m').
        (done ≡ true) × (s.mysql_stmt ≡ some p) × (s.field_count ≡ fields) × (m'.live ≡ m.live)
  unfolding init prepare
  init-Yields handle conn p fields query m there h inits prepares counts =
      Yields-bind _ _ (on_handle handle stmts.stmt_init) _ m
        (on_handle-Yields handle conn stmts.stmt_init m (some p) there h (inits m.world))
        λ q m₁ (e, same). rw (e, prepares m₁.world) (refl, refl, counts _, same)

module _ ⦃api : MysqlApi⦄ ⦃rows : RowsApi api.World⦄ where
  with_pointer-Yields :
      {A : Type 0} (P : A × Machine api.World → Type 0) (s : MysqlStatement) (p : ℕ)
      (call : ℕ → Io A) (m : Machine api.World)
      → s.mysql_stmt ≡ some p
      → Yields (call p m) P
      → Yields (with_pointer s call m) P
  unfolding with_pointer
  with_pointer-Yields P s p call m q h = rw q h

  pub meta-Yields :
      (s : MysqlStatement) (p : ℕ) (fields : List MysqlField) (m : Machine api.World)
      → s.mysql_stmt ≡ some p
      → ((w : api.World) → (rows.stmt_result_metadata p w).0 ≡ some fields)
      → Yields (get_results_meta s m) λ (meta, m'). (meta ≡ some fields) × (m'.live ≡ m.live)
  unfolding get_results_meta with_pointer
  meta-Yields s p fields m q describes = rw q (describes m.world, refl)

  pub fields-Yields :
      (meta : Option (List MysqlField)) (fields : List MysqlField) (m : Machine api.World)
      → meta ≡ some fields
      → Yields (fetch_fields meta m) λ (found, m'). (found ≡ fields) × (m' ≡ m)
  unfolding fetch_fields
  fields-Yields meta fields m e = rw e (refl, refl)

  pub bind_outputs-Yields :
      (s : MysqlStatement) (p size : ℕ) (fields : List MysqlField) (args : List CType)
      (m : Machine api.World)
      → s.mysql_stmt ≡ some p
      → ((w : api.World) → (rows.stmt_result_metadata p w).0 ≡ some fields)
      → s.field_count ≡ length args
      → Yields
          (bind_outputs s size args m)
          λ (cs, m'). (cs ≡ map (open_column size) args) × (m'.live ≡ m.live)
  unfolding bind_outputs
  bind_outputs-Yields s p size fields args m q describes counts =
      Yields-bind _ _ (get_results_meta s) _ m (meta-Yields s p fields m q describes)
        λ meta m₁ (e, same).
          Yields-bind _ _ (fetch_fields meta) _ m₁ (fields-Yields meta fields m₁ e)
            λ found m₂ (_, still).
              Yields-when _ (s.field_count == length args) _ _ m₂
                (λ _. (refl, ap (λ (x : Machine api.World). x.live) still ∙ same))
                λ no. absurd (ground (arith, counts))

module _ ⦃api : MysqlApi⦄ ⦃stmts : StatementApi api.World⦄ ⦃rows : RowsApi api.World⦄
    (laws : RowsLaws rows) (conn p : ℕ) (query : Bytes) (binds : List InputBind)
    (fields : List MysqlField) (rs : List Row)
    (accepts : Accepts laws conn query binds fields p rs) where
  pub run_bound-Yields :
      (s : MysqlStatement) (cs : List Column) (m : Machine api.World)
      → s.mysql_stmt ≡ some p
      → Yields (run_bound s cs m) λ (status, m'). (status ≡ none) × (m'.live ≡ m.live)
  unfolding run_bound run_statement
  run_bound-Yields s cs m q =
      Yields-bind _ _ (on_statement s (λ p. rows.stmt_bind_result p (limits cs))) _ m
        (on_statement-Yields s p (λ p. rows.stmt_bind_result p (limits cs)) m q
          (accepts.binds_output (limits cs) m.world))
        λ bound m₁ (ok, same). rw ok (
          Yields-bind _ _ (on_statement s stmts.stmt_execute) _ m₁
            (on_statement-Yields s p stmts.stmt_execute m₁ q (accepts.executes m₁.world))
            λ done m₂ (ok₂, same₂). rw ok₂ (refl, same₂ ∙ same))

  -- The results after FetchResults and SetFieldsName.
  abbrev pub Read : List CType → MysqlResults (List Bytes) → MysqlResults (List Bytes) → Type 0
  Read args r r' =
      (new : List (List Bytes)) × RowsRead args rs new
      × (r' ≡ record r {
        result_set = r.result_set ++ new;
        null_flags = r.null_flags ++ map (map flag_of) rs;
        fields_name = r.fields_name ++ map (λ (f : MysqlField). f.name) fields;
      })

  named :
      (args : List CType) (meta : Option (List MysqlField)) (r r₁ r' : MysqlResults (List Bytes))
      → meta ≡ some fields
      → Appended args rs r r₁
      → r' ≡ set_fields_name r₁ (names meta)
      → Read args r r'
  unfolding set_fields_name
  named args meta r r₁ r' described (new, agree, e₁) e = (new, agree, e ∙ rw (described, e₁) refl)

  pub receive-Yields :
      (fuel : ℕ) (s : MysqlStatement) (e : MysqlExecutor) (r : MysqlResults (List Bytes))
      (args : List CType) (m : Machine api.World)
      → s.mysql_stmt ≡ some p
      → Frees
      → AllFitButLast (shape_of r.option args) rs
      → length rs < fuel
      → Yields
          (receive fuel s e r (map (open_column r.option) args) m)
          λ ((done, e', r'), m'). (done ≡ true) × Read args r r' × (m'.live ≡ m.live)
  unfolding receive set_fields_name
  receive-Yields fuel s e r args m q frees fits enough =
      Yields-bind (λ x. Received laws p args rs r m x) _
        (with_pointer s (λ p. fetch_results fuel p (map (open_column r.option) args) r)) _ m
        (with_pointer-Yields (Received laws p args rs r m) s p
          (λ p. fetch_results fuel p (map (open_column r.option) args) r) m q
          (fetch_results-Received laws fuel p r.option args rs r m (accepts.stores m.world)
            (accepts.has_rows m.world) fits enough))
        λ (done, r₁) m₁ (ok, appended, same, _). rw ok (
          Yields-bind _ _ (get_results_meta s) _ m₁ (meta-Yields s p fields m₁ q accepts.describes)
            λ meta m₂ (described, same₂).
              Yields-weaken _ _ (leave s e (set_fields_name r₁ (names meta)) true m₂)
                (leave_lem s e (set_fields_name r₁ (names meta)) true m₂ frees)
                λ x (returned, same₃). (
                  ap (λ (y : Bool × MysqlExecutor × MysqlResults (List Bytes)). y.0) returned,
                  named args meta r r₁ _ described appended
                      (ap (λ (y : Bool × MysqlExecutor × MysqlResults (List Bytes)). y.2) returned),
                  same₃ ∙ same₂ ∙ same,
                ))
