-- ===== src/Proxy/Overlap/Early.antt =====
-- A commit that a caller does not put after the query before it.
use cpp_database.Prelude.{ℕ, ◌≡◌, refl, false, none, some, [], ◌∷◌, get_elem?, get_elem?-set}
use cpp_database.Transaction.{started, committed}
use cpp_database.Proxy.Overlap.{System, Handle, Step, call, end_taken, query, finish, go}

-- What the callers and the tasks can reach.
pub data Reaches (y : System) : System → Type 0 where
  start : Reaches y y
  next : {y₁ y₂ : System} → Reaches y y₁ → Step y₁ y₂ → Reaches y y₂

abbrev asked : Handle → ℕ → Handle
asked h c = record h { tasks = record { conn = c; kind = query } ∷ h.tasks }

abbrev asked_twice : Handle → ℕ → Handle
asked_twice h c = record h {
  tasks = record { conn = c; kind = finish false } ∷ record { conn = c; kind = query } ∷ h.tasks;
}

-- On every started handle, a query and a commit that does not wait for it can end with the query
-- outstanding on a connection that is in the pool already and that the handle has no more.
pub commit_overtakes :
    (y : System) (i : ℕ) (h : Handle) (c : ℕ)
    → get_elem? y.handles i ≡ some h
    → h.state ≡ started
    → h.executor ≡ some c
    → (z : System) × Reaches y z
      × (z.idle ≡ c ∷ y.idle)
      × (get_elem? z.handles i
          ≡ some (record {
            state = committed;
            executor = none;
            tasks = record { conn = c; kind = query } ∷ h.tasks;
          }))
commit_overtakes y i h c at is has =
    let y₁ : System = go y i (asked h c) in
    let at₁ : get_elem? y₁.handles i ≡ some (asked h c) =
      get_elem?-set y.handles i h (asked h c) at in
    let y₂ : System = go y₁ i (asked_twice h c) in
    let at₂ : get_elem? y₂.handles i ≡ some (asked_twice h c) =
      get_elem?-set y₁.handles i (asked h c) (asked_twice h c) at₁ in
    let last : Handle = record {
      state = committed;
      executor = none;
      tasks = record { conn = c; kind = query } ∷ h.tasks;
    } in
    (
      go (record y₂ { idle = c ∷ y.idle }) i last,
      Reaches.next
          (Reaches.next (Reaches.next Reaches.start (call y i h c query at is has))
            (call y₁ i (asked h c) c (finish false) at₁ is has))
          (end_taken y₂ i (asked_twice h c) (record { conn = c; kind = finish false }) []
            (record { conn = c; kind = query } ∷ h.tasks) false c at₂ refl refl has),
      refl,
      get_elem?-set y₂.handles i (asked_twice h c) last at₂,
    )
