-- ===== src/Tests/Overlaps.antt =====
-- Asynchronous calls that overlap, and calls of Proxy/Async as their steps.
use cpp_database.Prelude.{false, ◌≡◌, ◌≤◌, refl, none, some, [], ◌∷◌, get_elem?, arith}
use cpp_database.Transaction.{not_inited, started, committed}
use cpp_database.Proxy.Overlap.{System, Handle, begin, call, end_taken, query, finish}
use cpp_database.Proxy.Overlap.Orderly.{Awaiting, uses, Awaiting-uses}
use cpp_database.Proxy.Overlap.Orderly
use cpp_database.Proxy.Overlap.Early.{Reaches, commit_overtakes}

abbrev fresh : Handle
fresh = record { state = not_inited; executor = none; tasks = [] }

abbrev opened : Handle
opened = record { state = started; executor = some 0; tasks = [] }

abbrev first : System
first = record { idle = 0 ∷ 1 ∷ []; handles = fresh ∷ [] }

abbrev begun : System
begun = record { idle = 1 ∷ []; handles = opened ∷ [] }

abbrev ends : System
ends = record {
  idle = 1 ∷ [];
  handles = record opened { tasks = record { conn = 0; kind = finish false } ∷ [] } ∷ [];
}

abbrev ended : System
ended = record {
  idle = 0 ∷ 1 ∷ [];
  handles = record { state = committed; executor = none; tasks = [] } ∷ [];
}

Awaiting-uses_example : uses 0 ended ≤ 1
Awaiting-uses_example =
    Awaiting-uses first ended 0
      (Orderly.next
        (Orderly.next
          (Orderly.next (Orderly.start (omega arith, tt))
            (begin first 0 fresh 0 [] (1 ∷ []) refl refl refl refl) (omega arith, tt))
          (call begun 0 opened 0 (finish false) refl refl refl) (omega arith, tt))
        (end_taken ends 0 (record opened { tasks = record { conn = 0; kind = finish false } ∷ [] })
          (record { conn = 0; kind = finish false }) [] [] false 0 refl refl refl refl)
        (omega arith, tt))
      (λ x. ground arith, (tt, tt))

commit_overtakes_example :
    (z : System) × Reaches begun z
    × (z.idle ≡ 0 ∷ 1 ∷ [])
    × (get_elem? z.handles 0
        ≡ some (record {
          state = committed;
          executor = none;
          tasks = record { conn = 0; kind = query } ∷ [];
        }))
commit_overtakes_example = commit_overtakes begun 0 opened 0 refl refl refl
