-- ===== src/Results/Ownership.antt =====
-- Who frees the MYSQL_RES that a MysqlResults holds.
use cpp_database.Prelude.{
  ℕ, ◌≡◌, refl, ◌≢◌, Bool, true, false, ◌||◌, is_some, Option, none, some, List, [], ◌∷◌, ◌++◌,
  arith, Option-cases, inl, inr,
}
use mathlib.Core.List.{append_assoc, append-nil}
use cpp_database.Results.{
  MysqlResults, with_option, set_raw_mysql_res, clear, destroy, move_construct, move_assign,
}

-- What a program does with one object: install a raw result, clear, move it into a new object that
-- takes its place, assign it to itself by move, or assign to it by move from another object, of some
-- option and with a raw result or none, which is then destroyed.
pub data Use : Type 0 where
  install : ℕ → Use
  clears moves assigns_itself : Use
  assigns : ℕ → Option ℕ → Use

abbrev pub held : Option ℕ → List ℕ
held none = []
held (some p) = p ∷ []

-- The object, the pointers that were installed, and those that were freed, oldest first.
pub record Ledger (Row : Type 0) : Type 0 where
  pub results : MysqlResults Row
  pub installed : List ℕ
  pub freed : List ℕ

module _ {Row : Type 0} where
  unfoldable pub use_step : Ledger Row → Use → Option (Ledger Row)
  use_step l (install p) = elim (set_raw_mysql_res l.results p) [
    | none ↦ none
    | some r ↦ some (record l { results = r; installed = l.installed ++ p ∷ [] })
  ]
  use_step l clears =
      let (r, p) = clear l.results in some (record l { results = r; freed = l.freed ++ held p })
  use_step l moves =
      let (fresh, old) = move_construct l.results in
      some (record l { results = fresh; freed = l.freed ++ held (destroy old) })
  use_step l assigns_itself = some (record l { results = (move_assign true l.results l.results).0 })
  use_step l (assigns size p) =
      let (this, other) =
        move_assign false l.results (record (with_option size) { mysql_res = p }) in
      some (record {
        results = this;
        installed = l.installed ++ held p;
        freed = l.freed ++ held (destroy other);
      })

  unfoldable pub run_uses : Ledger Row → List Use → Option (Ledger Row)
  run_uses l [] = some l
  run_uses l (u ∷ us) = elim (use_step l u) [ none ↦ none | some next ↦ run_uses next us ]

  -- Whether the object is assigned to from another while it holds a raw result.
  abbrev pub onto_held : Ledger Row → Use → Bool
  onto_held l (assigns size p) = is_some l.results.mysql_res
  onto_held l _ = false

  unfoldable pub overwrites : Ledger Row → List Use → Bool
  overwrites l [] = false
  overwrites l (u ∷ us) =
      onto_held l u || elim (use_step l u) [ none ↦ false | some next ↦ overwrites next us ]

  -- Each installed pointer has been freed once, in order, but for the one that is still held.
  abbrev pub IsBalanced : Ledger Row → Type 0
  IsBalanced l = l.installed ≡ l.freed ++ held l.results.mysql_res

  use_step-IsBalanced :
      (l : Ledger Row) (u : Use) {l' : Ledger Row}
      → use_step l u ≡ some l'
      → onto_held l u ≡ false
      → IsBalanced l
      → IsBalanced l'
  unfolding use_step set_raw_mysql_res clear destroy move_construct move_assign with_option
  use_step-IsBalanced l (install p) e o h =
      ground (arith, append_assoc l.freed (held l.results.mysql_res) (p ∷ []), append-nil l.freed)
  use_step-IsBalanced l clears e o h =
      ground (arith, append-nil l.freed, append-nil (l.freed ++ held l.results.mysql_res))
  use_step-IsBalanced l moves e o h = ground (arith, append-nil l.freed)
  use_step-IsBalanced l assigns_itself e o h = ground (arith, h)
  use_step-IsBalanced l (assigns size p) e o h =
      let empty : l.results.mysql_res ≡ none = ground (arith, o) in
      ground (
        arith,
        empty,
        append-nil l.freed,
        append-nil (l.freed ++ []),
        append-nil (l.freed ++ held p),
      )

  run_uses-IsBalanced :
      (us : List Use) (l : Ledger Row) {l' : Ledger Row}
      → run_uses l us ≡ some l'
      → overwrites l us ≡ false
      → IsBalanced l
      → IsBalanced l'
  unfolding run_uses overwrites
  run_uses-IsBalanced [] l e o h = ground (arith, h)
  run_uses-IsBalanced (u ∷ us) l {l'} e o h = elim (Option-cases (use_step l u)) [
    | inl stops ↦ absurd (ground arith)
    | inr (m, goes) ↦
        run_uses-IsBalanced us m {l' = l'} (ground arith) (ground arith)
          (use_step-IsBalanced l u goes (ground arith) h)
  ]

  abbrev pub fresh_ledger : ℕ → Ledger Row
  fresh_ledger size = record { results = with_option size; installed = []; freed = [] }

  -- If an object is only assigned to from another while it holds no raw result, then, whatever else is
  -- done with it, every raw result that was installed has been freed exactly once, in the order of
  -- installation, but for the one that the object still holds.
  pub run_uses-fresh-IsBalanced :
      (size : ℕ) (us : List Use) (l : Ledger Row)
      → run_uses (fresh_ledger size) us ≡ some l
      → overwrites (fresh_ledger size) us ≡ false
      → l.installed ≡ l.freed ++ held l.results.mysql_res
  unfolding with_option
  run_uses-fresh-IsBalanced size us l e o = run_uses-IsBalanced us (fresh_ledger size) e o refl

-- Move assignment overwrites a raw result that the target held: afterwards neither object holds it.
pub move_assign-forgets :
    {Row : Type 0} (this other : MysqlResults Row) (p : ℕ)
    → this.mysql_res ≡ some p
    → other.mysql_res ≢ some p
    → let (a, b) = move_assign false this other in (a.mysql_res ≢ some p) × (b.mysql_res ≢ some p)
unfolding move_assign
move_assign-forgets this other p e h = (h, λ q. cc)
