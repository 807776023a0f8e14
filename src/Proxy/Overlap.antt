-- ===== src/Proxy/Overlap.antt =====
-- The asynchronous calls of mysql_service_proxy.h and mysql_service_proxy.cc in transactions, when
-- the caller goes on before their futures are done. A connection is named by a number; a call that
-- has been accepted is outstanding until its future has run what is chained to it. A call looks at
-- the handle, tests the connection and hands it to its task in one step.
pub mod Orderly
pub mod Early
pub mod Calls
pub mod Ends
use cpp_database.Prelude.{
  ℕ, ◌≡◌, Bool, true, false, Option, none, some, List, [], ◌∷◌, ◌++◌, get_elem?, set, if◌then◌else◌,
}
use cpp_database.Transaction.{TxState, not_inited, started, roll_backed, committed}

-- AsyncQuery and AsyncExecute, or AsyncCommit, or AsyncRollback, for which the flag is true.
pub data Kind : Type 0 where
  query : Kind
  finish : Bool → Kind

-- The state that the end of a call writes.
abbrev pub ended : Bool → TxState
ended rollback = if rollback then roll_backed else committed

-- The task of a call: AsyncQuery hands it the connection that the handle had.
pub record Task : Type 0 where
  pub conn : ℕ
  pub kind : Kind

-- A handle with the calls on it that are outstanding.
pub record Handle : Type 0 where
  pub state : TxState
  pub executor : Option ℕ
  pub tasks : List Task

-- The connections of the pool, with those that it is still to open, and the handles.
pub record System : Type 0 where
  pub idle : List ℕ
  pub handles : List Handle

abbrev pub go : System → ℕ → Handle → System
go y i h = record y { handles = set y.handles i h }

-- The steps of the callers and of the tasks.
pub data Step : System → System → Type 0 where
  -- AsyncBegin, whose future is ready.
  begin :
      (y : System) (i : ℕ) (h : Handle) (c : ℕ) (before after : List ℕ)
      → get_elem? y.handles i ≡ some h
      → h.state ≡ not_inited
      → h.executor ≡ none
      → y.idle ≡ before ++ c ∷ after
      → Step y (
          go
            (record y { idle = before ++ after })
            i
            (record h { state = started; executor = some c }))
  -- A call on a started transaction whose connection answers.
  call :
      (y : System) (i : ℕ) (h : Handle) (c : ℕ) (kind : Kind)
      → get_elem? y.handles i ≡ some h
      → h.state ≡ started
      → h.executor ≡ some c
      → Step y (go y i (record h { tasks = record { conn = c; kind = kind } ∷ h.tasks }))
  -- A call on a started transaction whose connection is lost.
  lose :
      (y : System) (i : ℕ) (h : Handle)
      → get_elem? y.handles i ≡ some h
      → h.state ≡ started
      → Step y (go y i (record h { state = roll_backed }))
  -- A query is done, or a statement has failed.
  answer :
      (y : System) (i : ℕ) (h : Handle) (t : Task) (before after : List Task)
      → get_elem? y.handles i ≡ some h
      → h.tasks ≡ before ++ t ∷ after
      → Step y (go y i (record h { tasks = before ++ after }))
  -- Commit or rollback is done: EndTransaction, whose connection the pool takes.
  end_taken :
      (y : System) (i : ℕ) (h : Handle) (t : Task) (before after : List Task) (rollback : Bool)
      (c : ℕ)
      → get_elem? y.handles i ≡ some h
      → h.tasks ≡ before ++ t ∷ after
      → t.kind ≡ finish rollback
      → h.executor ≡ some c
      → Step y (
          go
            (record y { idle = c ∷ y.idle })
            i
            (record { state = ended rollback; executor = none; tasks = before ++ after }))
  -- EndTransaction, where the handle has no connection, or the pool has closed it and left it there.
  end_kept :
      (y : System) (i : ℕ) (h : Handle) (t : Task) (before after : List Task) (rollback : Bool)
      → get_elem? y.handles i ≡ some h
      → h.tasks ≡ before ++ t ∷ after
      → t.kind ≡ finish rollback
      → Step y (go y i (record h { state = ended rollback; tasks = before ++ after }))
