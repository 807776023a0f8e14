-- ===== src/Executor/Rows/Truncated.antt =====
-- A value that is longer than its buffer: what the fetch leaves of it, and how it is completed.
use cpp_database.Prelude.{
  ℕ, ◌+◌, ◌-◌, ◌≤◌, ◌<◌, ◌≡◌, refl, ap, ◌∙◌, true, false, Option, none, some, [], ◌++◌, length,
  length-append, length-drop, length-take, length-replicate, replicate, take, drop, take_all,
  take-append, take-append-drop, arith, leb, leb→le, le→leb, Bool-cases, inl, inr, if◌then◌else◌,
}
use mathlib.Core.List.{append-nil}
use cpp_database.Prelude.Text.{Bytes}
use cpp_database.Driver.{MysqlApi, Machine, returns}
use cpp_database.Executor.Rows.{
  RowsApi, value, Column, is_dynamic, write_at, deliver, step_tuple_set, resize, refetch,
}
use cpp_database.Executor.Rows.Columns.{
  Suits, FitsIn, FitsIn-le, Refilled, null_Holds, value_Holds, with_front-IsReady,
  delivered_cell-FitsIn, delivered_cell, limit, IsReady, Holds, write_front, with_front,
  deliver_value, drop_all,
}

write_tail :
    (front tail zeros : Bytes)
    → length zeros ≡ length tail
    → write_at (front ++ zeros) (length front) tail ≡ returns (front ++ tail)
unfolding write_at
write_tail front tail zeros same =
    let all = length-append front zeros in
    let gone : drop (length front + length tail) (front ++ zeros) ≡ [] =
      drop_all (length front + length tail) (front ++ zeros) (omega (arith, all)) in
    ground (arith, all, gone, take-append front zeros, append-nil tail)

-- The column after a fetch that filled its buffer with the beginning of a longer value.
abbrev pub cut_front : Column → Bytes → Column
cut_front c v = record c {
  is_null = false;
  len = length v;
  buffer = record c.buffer { bytes = take (length c.buffer.bytes) v };
}

pub deliver_cut :
    (c : Column) (v : Bytes)
    → IsReady c
    → is_dynamic c.type ≡ true
    → length c.buffer.bytes < length v
    → deliver c (delivered_cell (limit c) (some v)) ≡ returns (cut_front c v)
deliver_cut c v ready dynamic long =
    let size = length c.buffer.bytes in
    let new = take size v in
    let filled : length new ≡ size = length-take size v (omega arith) in
    let nothing : drop (length new) c.buffer.bytes ≡ [] =
      drop_all (length new) c.buffer.bytes (omega arith) in
    let part : delivered_cell (limit c) (some v) ≡ value (length v) new =
      rw (dynamic, ready.whole dynamic) refl in
    let front : with_front c (length v) new ≡ cut_front c v =
      ap (λ (b : Bytes). record (cut_front c v) { buffer = record c.buffer { bytes = b } })
        (ap (λ (b : Bytes). new ++ b) nothing ∙ append-nil new) in
    ap (deliver c) part
    ∙ deliver_value c (length v) new ready.in_place (omega arith)
    ∙ ap returns front

-- The column after a fetch of a value.
abbrev pub after : Column → Option Bytes → Column
after c none = record c { is_null = true }
after c (some v) =
    if leb (length v) (length c.buffer.bytes) then with_front c (length v) v else cut_front c v

pub deliver-after :
    (c : Column) (cell : Option Bytes)
    → IsReady c
    → Suits c.type (length c.buffer.bytes) cell
    → deliver c (delivered_cell (limit c) cell) ≡ returns (after c cell)
unfolding deliver
deliver-after c none ready suits = refl
deliver-after c (some v) ready suits = elim (Bool-cases (leb (length v) (length c.buffer.bytes))) [
  | inl fits ↦
      let room = leb→le (length v) (length c.buffer.bytes) fits in
      rw fits (
        ap (deliver c) (delivered_cell-FitsIn c v ready (λ _. room))
        ∙ deliver_value c (length v) v ready.in_place room)
  | inr long ↦ elim (Bool-cases (is_dynamic c.type)) [
    | inl dynamic ↦ rw long (deliver_cut c v ready dynamic (ground arith))
    | inr fixed ↦ absurd (ground (arith, suits fixed))
  ]
]

-- A value that fits: the column is ready again, and holds it.
pub after-FitsIn :
    (c : Column) (cell : Option Bytes)
    → IsReady c
    → FitsIn c.type (length c.buffer.bytes) cell
    → Refilled c cell (after c cell)
after-FitsIn c none ready fits = (
  record {
    at_front = ready.at_front;
    in_place = ready.in_place;
    whole = ready.whole;
    short = ready.short;
  },
  null_Holds c,
  refl,
  refl,
)
after-FitsIn c (some v) ready fits =
    let room = FitsIn-le c v fits in
    rw (le→leb (length v) (length c.buffer.bytes) room) (
      with_front-IsReady c (length v) v ready room room,
      value_Holds c v ready fits,
      refl,
      (write_front c.buffer.bytes v room).1,
    )

module _ ⦃api : MysqlApi⦄ ⦃rows : RowsApi api.World⦄ where
  resized :
      (c : Column) (v : Bytes)
      → length c.buffer.bytes ≤ length v
      → (resize (cut_front c v).buffer (length v)).bytes
        ≡ take (length c.buffer.bytes) v ++ replicate (length v - length c.buffer.bytes) 0
  unfolding resize
  resized c v h =
      let size = length c.buffer.bytes in
      let filled = length-take size v h in
      let short : take (length v) (take size v) ≡ take size v =
        take_all (length v) (take size v) (omega (arith, filled)) in
      rw (short, filled) refl

  rest_written :
      (c : Column) (v : Bytes)
      → length c.buffer.bytes ≤ length v
      → write_at
          (resize (cut_front c v).buffer (length v)).bytes
          (length (cut_front c v).buffer.bytes)
          (drop (length c.buffer.bytes) v)
        ≡ returns v
  rest_written c v h =
      let size = length c.buffer.bytes in
      let zeros = replicate (length v - size) 0 in
      let tail = length-drop size v h in
      ap (λ (b : Bytes). write_at b (length (take size v)) (drop size v)) (resized c v h)
      ∙ write_tail (take size v) (drop size v) zeros
          (omega (arith, length-replicate {A = ℕ} (length v - size) 0, tail))
      ∙ ap returns (take-append-drop size v)

  -- The column after FetchTruncatedResults has completed the value.
  abbrev pub completed : Column → Bytes → Column
  completed c v = record c {
    is_null = false;
    len = length v;
    offset = 0;
    buffer_length = length v;
    buffer = record (resize (cut_front c v).buffer (length v)) { bytes = v };
  }

  -- Where mysql_stmt_fetch_column writes the rest of the value.
  pub refetch_cut :
      (stmt i : ℕ) (c : Column) (v : Bytes) (m : Machine api.World)
      → length c.buffer.bytes ≤ length v
      → (rows.stmt_fetch_column stmt i (length (cut_front c v).buffer.bytes) (length v) m.world).0
        ≡ (true, drop (length c.buffer.bytes) v)
      → refetch stmt i (cut_front c v) m
        ≡ returns (
          (true, completed c v),
          record m {
            world =
                (rows.stmt_fetch_column stmt i
                  (length (cut_front c v).buffer.bytes)
                  (length v)
                  m.world).1;
          },
        )
  unfolding refetch
  refetch_cut stmt i c v m h answer = rw (answer, rest_written c v h) refl

  pub completed-Holds :
      (c : Column) (v : Bytes) → is_dynamic c.type ≡ true → Holds (completed c v) (some v)
  unfolding step_tuple_set
  completed-Holds c v dynamic = (refl, ground (arith, take_all (length v) v (omega arith)))
