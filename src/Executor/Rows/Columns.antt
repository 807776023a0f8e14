-- ===== src/Executor/Rows/Columns.antt =====
-- One column in a fetch: what its buffer holds, and what is read from it.
use cpp_database.Prelude.{
  ℕ, zero, suc, ◌+◌, ◌≤◌, ◌≡◌, refl, true, false, not, Option, none, some, is_some, List, [], ◌∷◌,
  ◌++◌, length, length-append, length-drop, take, drop, take_all, take-append, arith, if◌then◌else◌,
  Bool-cases, inl, inr,
}
use mathlib.Core.List.{append-nil}
use cpp_database.Prelude.Text.{Bytes}
use cpp_database.Driver.{returns, Yields}
use cpp_database.Binder.{CType}
use cpp_database.Executor.Rows.{
  Delivered, null, value, Column, is_dynamic, write_at, deliver, step_tuple_set,
}

-- What the library reports of a value in a column with a limit.
abbrev pub delivered_cell : Option ℕ → Option Bytes → Delivered
delivered_cell limit none = null
delivered_cell none (some v) = value (length v) v
delivered_cell (some n) (some v) = value (length v) (take n v)

abbrev pub limit : Column → Option ℕ
limit c = if is_dynamic c.type then some c.bound_length else none

-- The pointer that was bound is the buffer's, and the limit that was bound is its size.
pub record IsReady (c : Column) : Type 0 where
  pub at_front : c.offset ≡ 0
  pub in_place : c.bound_place ≡ c.buffer.place
  pub whole : is_dynamic c.type ≡ true → c.bound_length ≡ length c.buffer.bytes
  pub short : is_dynamic c.type ≡ true → c.len ≤ length c.buffer.bytes

-- A value of a fixed size has that size.
abbrev pub Suits : CType → ℕ → Option Bytes → Type 0
Suits type size none = Unit
Suits type size (some v) = is_dynamic type ≡ false → length v ≡ size

-- Besides, a value that may vary in length fits the buffer.
abbrev pub FitsIn : CType → ℕ → Option Bytes → Type 0
FitsIn type size none = Unit
FitsIn type size (some v) =
    (is_dynamic type ≡ false → length v ≡ size) × (is_dynamic type ≡ true → length v ≤ size)

-- What is read for a value: the value, or the empty text for NULL in a string or a blob.
abbrev pub Reads : CType → Option Bytes → Bytes → Type 0
Reads type none read = is_dynamic type ≡ true → read ≡ []
Reads type (some v) read = read ≡ v

-- The flag and what is read agree with the value.
abbrev pub Holds : Column → Option Bytes → Type 0
Holds c cell = (c.is_null ≡ not (is_some cell)) × Yields (step_tuple_set c) (Reads c.type cell)

pub write_front :
    (bytes new : Bytes)
    → length new ≤ length bytes
    → (write_at bytes 0 new ≡ returns (new ++ drop (length new) bytes))
      × (length (new ++ drop (length new) bytes) ≡ length bytes)
unfolding write_at
write_front bytes new h = (
  (let e : 0 + length new ≡ length new = omega arith in rw e (ground arith)),
  omega (arith, length-append new (drop (length new) bytes), length-drop (length new) bytes h),
)

-- A buffer whose front is overwritten.
abbrev pub with_front : Column → ℕ → Bytes → Column
with_front c n new = record c {
  is_null = false;
  len = n;
  buffer = record c.buffer { bytes = new ++ drop (length new) c.buffer.bytes };
}

pub deliver_value :
    (c : Column) (n : ℕ) (new : Bytes)
    → c.bound_place ≡ c.buffer.place
    → length new ≤ length c.buffer.bytes
    → deliver c (value n new) ≡ returns (with_front c n new)
unfolding deliver
deliver_value c n new same h = ground (arith, write_front c.buffer.bytes new h, same)

pub null_Holds : (c : Column) → Holds (record c { is_null = true }) none
unfolding step_tuple_set
null_Holds c = (refl, ground arith)

dynamic_Holds :
    (c : Column) (v : Bytes)
    → is_dynamic c.type ≡ true
    → c.offset ≡ 0
    → length v ≤ length c.buffer.bytes
    → Holds (with_front c (length v) v) (some v)
unfolding step_tuple_set
dynamic_Holds c v dynamic front h = (
  refl,
  ground (arith, write_front c.buffer.bytes v h, take-append v (drop (length v) c.buffer.bytes)),
)

pub drop_all {ℓ} : {A : Type ℓ} (n : ℕ) (xs : List A) → length xs ≤ n → drop n xs ≡ []
drop_all zero [] h = refl
drop_all zero (x ∷ xs) h = absurd (omega arith)
drop_all (suc n) [] h = refl
drop_all (suc n) (x ∷ xs) h = drop_all n xs (omega arith)

fixed_Holds :
    (c : Column) (v : Bytes)
    → is_dynamic c.type ≡ false
    → length v ≡ length c.buffer.bytes
    → Holds (with_front c (length v) v) (some v)
unfolding step_tuple_set
fixed_Holds c v fixed h =
    (refl, ground (arith, drop_all (length v) c.buffer.bytes (omega arith), append-nil v))

pub with_front-IsReady :
    (c : Column) (n : ℕ) (new : Bytes)
    → IsReady c
    → length new ≤ length c.buffer.bytes
    → n ≤ length c.buffer.bytes
    → IsReady (with_front c n new)
with_front-IsReady c n new ready h at_most =
    let same = (write_front c.buffer.bytes new h).1 in
    record {
      at_front = ready.at_front;
      in_place = ready.in_place;
      whole = λ dynamic. omega (arith, ready.whole dynamic, same);
      short = λ _. omega (arith, same);
    }

-- What is delivered of a value that fits is the whole value.
pub delivered_cell-FitsIn :
    (c : Column) (v : Bytes)
    → IsReady c
    → (is_dynamic c.type ≡ true → length v ≤ length c.buffer.bytes)
    → delivered_cell (limit c) (some v) ≡ value (length v) v
delivered_cell-FitsIn c v ready fits = elim (Bool-cases (is_dynamic c.type)) [
  | inl dynamic ↦
      let all : take c.bound_length v ≡ v =
        take_all c.bound_length v (omega (arith, ready.whole dynamic, fits dynamic)) in
      rw (dynamic, all) refl
  | inr fixed ↦ rw fixed refl
]

pub FitsIn-le :
    (c : Column) (v : Bytes)
    → FitsIn c.type (length c.buffer.bytes) (some v)
    → length v ≤ length c.buffer.bytes
FitsIn-le c v (fixed_size, at_most) = elim (Bool-cases (is_dynamic c.type)) [
  | inl dynamic ↦ at_most dynamic
  | inr fixed ↦ omega (arith, fixed_size fixed)
]

pub value_Holds :
    (c : Column) (v : Bytes)
    → IsReady c
    → FitsIn c.type (length c.buffer.bytes) (some v)
    → Holds (with_front c (length v) v) (some v)
value_Holds c v ready (fixed_size, at_most) = elim (Bool-cases (is_dynamic c.type)) [
  | inl dynamic ↦ dynamic_Holds c v dynamic ready.at_front (at_most dynamic)
  | inr fixed ↦ fixed_Holds c v fixed (fixed_size fixed)
]

-- A column after a fetch: ready again, and it holds the value, in a buffer of the same size.
abbrev pub Refilled : Column → Option Bytes → Column → Type 0
Refilled c cell c' =
    IsReady c'
    × Holds c' cell
    × (c'.type ≡ c.type)
    × (length c'.buffer.bytes ≡ length c.buffer.bytes)
