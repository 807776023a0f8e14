-- ===== src/Transaction.antt =====
-- trpc/client/mysql/transaction.h: the class `TransactionHandle`.
use cpp_database.Prelude.{ℕ, Bool, true, false, Option, none, some}
use cpp_database.Driver.{MysqlApi, Io, pure, ◌>>=◌}
use cpp_database.Executor.{MysqlExecutor, close}

pub data TxState : Type 0 where
  not_inited started roll_backed committed invalid : TxState

-- The number of a state, as the cast to int gives it.
abbrev pub state_code : TxState → ℕ
state_code not_inited = 0
state_code started = 1
state_code roll_backed = 2
state_code committed = 3
state_code invalid = 4

abbrev pub is_started : TxState → Bool
is_started started = true
is_started _ = false

pub record TransactionHandle : Type 0 where
  pub executor : Option MysqlExecutor
  pub state : TxState

abbrev pub init : TransactionHandle
init = record { executor = none; state = not_inited }

-- The move constructor: the new handle, and what is left of the other. Move assignment is the same.
unfoldable pub move_construct : TransactionHandle → TransactionHandle × TransactionHandle
move_construct other = (other, record { executor = none; state = invalid })

unfoldable pub set_state : TransactionHandle → TxState → TransactionHandle
set_state handle state = record handle { state = state }

-- The answer, and the new handle; an executor that is there is kept.
unfoldable pub set_executor : TransactionHandle → MysqlExecutor → Bool × TransactionHandle
set_executor handle e = elim handle.executor [
  | none ↦ (true, record handle { executor = some e })
  | some old ↦ (false, handle)
]

module _ ⦃api : MysqlApi⦄ where
  -- The destructor closes an executor that was not given back.
  unfoldable pub destroy : TransactionHandle → Io TransactionHandle
  destroy handle = elim handle.executor [
    | none ↦ pure (record handle { state = invalid })
    | some e ↦ do e' ← close e; pure (record { executor = some e'; state = invalid })
  ]
