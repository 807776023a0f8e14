-- ===== src/Proxy/Overlap/Ends.antt =====
-- AsyncCommit and AsyncRollback, with EndTransaction and what the pool does to the connection, as
-- runs of the steps on their handle.
use cpp_database.Prelude.{ℕ, ◌≡◌, ◌⊎◌, Option, none, some, List, ◌∷◌}
use cpp_database.Executor.{MysqlExecutor}
use cpp_database.Framework.{Framework}
use cpp_database.Manager
use cpp_database.Transaction.{TransactionHandle}
use cpp_database.Proxy.Overlap.{Kind}
use cpp_database.Proxy.Overlap.Calls.{number_of, view, alone, Asks}

-- The pool takes the connection, or leaves it where it was.
abbrev Left : Option MysqlExecutor → Option MysqlExecutor → Type 0
Left o left = (left ≡ none) ⊎ (number_of left ≡ number_of o)

-- From one handle to another by the steps of one kind of call. The connections in the pool are the
-- same afterwards, or the one that the handle had and has no more has come to them.
abbrev pub Runs : Kind → List ℕ → TransactionHandle → TransactionHandle → Type 0
Runs kind idle h h' =
    (idle' : List ℕ) × Asks kind (alone idle (view h)) (alone idle' (view h'))
    × ((idle' ≡ idle)
        ⊎ ((c : ℕ) × (number_of h.executor ≡ some c) × (h'.executor ≡ none) × (idle' ≡ c ∷ idle)))
