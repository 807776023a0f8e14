-- ===== src/Executor/Rows/Sized.antt =====
-- The types of the values that FetchResults appends, whatever the client library answers.
use cpp_database.Prelude.{
  ℕ, ◌+◌, ◌≡◌, refl, sym, ap, subst, ◌∙◌, Bool, true, false, List, [], ◌∷◌, ◌++◌, length,
  length-append, length-take, length-drop, take, drop, arith, leb, leb→le, ◌==◌, if◌then◌else◌,
  Bool-cases, inl, inr,
}
use cpp_database.Prelude.Text.{Bytes}
use cpp_database.Driver.{
  MysqlApi, Machine, Outcome, returns, faults, Ensures, pure, when◌then◌else◌,
}
use cpp_database.Driver.Rules.{Ensures-bind, Ensures-seq, Ensures-when}
use cpp_database.Binder.{CType}
use cpp_database.Executor.Rows.{
  RowsApi, Delivered, null, value, Column, is_dynamic, write_at, deliver, deliver_all, both, resize,
  exceeds, refetch, fetch_truncated, complete, step_tuple_set, set_result_tuple, size_of, lift,
}

always : {A : Type 0} (P : A → Type 0) (o : Outcome A) → ((a : A) → P a) → Ensures o P
always P (returns a) h = h a
always P (faults e) h = tt

Ensures-both_of :
    {A B C : Type 0} {P : A → Type 0} {Q : B → Type 0} (R : C → Type 0) (f : A → B → C)
    (o : Outcome A) (p : Outcome B)
    → Ensures o P
    → Ensures p Q
    → ((a : A) (b : B) → P a → Q b → R (f a b))
    → Ensures (both f o p) R
Ensures-both_of R f (returns a) (returns b) h k w = w a b h k
Ensures-both_of R f (returns a) (faults e) h k w = tt
Ensures-both_of R f (faults e) p h k w = tt

module _ ⦃api : MysqlApi⦄ ⦃rows : RowsApi api.World⦄ where
  -- A value of a fixed size has the size of its type.
  abbrev pub HasType : CType → Bytes → Type 0
  HasType type v = is_dynamic type ≡ false → length v ≡ size_of type

  -- A row has a value for each type.
  abbrev pub RowHasTypes : List CType → List Bytes → Type 0
  RowHasTypes [] [] = Unit
  RowHasTypes (type ∷ types) (v ∷ vs) = HasType type v × RowHasTypes types vs
  RowHasTypes _ _ = ⊥

  -- The buffer of a column of a fixed size has the size of the type.
  abbrev pub IsSized : Column → Type 0
  IsSized c = HasType c.type c.buffer.bytes

  length-write_at :
      (bytes new : Bytes) (offset : ℕ)
      → Ensures (write_at bytes offset new) λ bytes'. length bytes' ≡ length bytes
  unfolding write_at
  length-write_at bytes new offset = elim (Bool-cases (leb (offset + length new) (length bytes))) [
    | inl room ↦
        let fits = leb→le (offset + length new) (length bytes) room in
        rw room (
          omega (
            arith,
            length-append {0} (take offset bytes) (new ++ drop (offset + length new) bytes),
            length-append {0} new (drop (offset + length new) bytes),
            length-take offset bytes (omega arith),
            length-drop (offset + length new) bytes fits,
          ))
    | inr none_left ↦ rw none_left tt
  ]

  -- A fetch keeps the type of a column, and the size of its buffer.
  record Keeps (c c' : Column) : Type 0 where
    same_type : c'.type ≡ c.type
    same_size : IsSized c → IsSized c'

  Keeps-refl : (c : Column) → Keeps c c
  Keeps-refl c = record { same_type = refl; same_size = λ h. h }

  Keeps-dynamic : (c c' : Column) → c'.type ≡ c.type → is_dynamic c.type ≡ true → Keeps c c'
  Keeps-dynamic c c' same dynamic = record {
    same_type = same;
    same_size = λ _ fixed. absurd (cc (sym fixed ∙ ap is_dynamic same ∙ dynamic));
  }

  -- The column after a write to its buffer.
  written-Keeps :
      (c : Column) (n : ℕ) (o : Outcome Bytes)
      → Ensures o (λ new. length new ≡ length c.buffer.bytes)
      → Ensures
          (elim o [
            | returns new ↦
                returns
                  (record c { is_null = false; len = n; buffer = record c.buffer { bytes = new } })
            | faults f ↦ faults f
          ])
          (Keeps c)
  written-Keeps c n (returns new) same = record {
    same_type = refl;
    same_size = λ h fixed. same ∙ h fixed;
  }
  written-Keeps c n (faults f) same = tt

  Keeps-if : (b : Bool) (c x y : Column) → Keeps c x → Keeps c y → Keeps c (if b then x else y)
  Keeps-if true c x y hx hy = hx
  Keeps-if false c x y hx hy = hy

  deliver-Keeps : (c : Column) (d : Delivered) → Ensures (deliver c d) (Keeps c)
  unfolding deliver
  deliver-Keeps c null = record { same_type = refl; same_size = λ h. h }
  deliver-Keeps c (value n bytes) = elim (Bool-cases (c.bound_place == c.buffer.place)) [
    | inl in_place ↦ rw in_place (
        written-Keeps c n (write_at c.buffer.bytes 0 bytes)
          (length-write_at c.buffer.bytes bytes 0))
    | inr moved ↦ rw moved tt
  ]

  refetch-Keeps :
      (stmt i : ℕ) (c : Column) (m : Machine api.World)
      → exceeds c ≡ true
      → Ensures (refetch stmt i c m) λ ((_, c'), _). Keeps c c'
  unfolding refetch
  refetch-Keeps stmt i c m over =
      Ensures-bind _ (lift (write_at (resize c.buffer c.len).bytes (length c.buffer.bytes) _)) _ _
        λ new m' _.
          Keeps-if _ c _ _ (Keeps-dynamic c _ refl (ground arith))
            (Keeps-dynamic c _ refl (ground arith))

  -- The columns of a row keep their types and sizes.
  abbrev pub AreColumns : List CType → List Column → Type 0
  AreColumns [] [] = Unit
  AreColumns (type ∷ types) (c ∷ cs) = (c.type ≡ type) × IsSized c × AreColumns types cs
  AreColumns _ _ = ⊥

  keep_column :
      (type : CType) (c c' : Column)
      → Keeps c c'
      → (c.type ≡ type) × IsSized c
      → (c'.type ≡ type) × IsSized c'
  keep_column type c c' k h = (k.same_type ∙ h.0, k.same_size h.1)

  pub deliver_all-AreColumns :
      (types : List CType) (cs : List Column) (ds : List Delivered)
      → AreColumns types cs
      → Ensures (deliver_all cs ds) (AreColumns types)
  unfolding deliver_all
  deliver_all-AreColumns [] [] ds h = tt
  deliver_all-AreColumns [] (c ∷ cs) ds h = absurd h
  deliver_all-AreColumns (type ∷ types) [] ds h = absurd h
  deliver_all-AreColumns (type ∷ types) (c ∷ cs) [] h = h
  deliver_all-AreColumns (type ∷ types) (c ∷ cs) (d ∷ ds) h =
      Ensures-both_of _ (λ c' cs'. c' ∷ cs') (deliver c d) (deliver_all cs ds) (deliver-Keeps c d)
        (deliver_all-AreColumns types cs ds h.2)
        λ c' cs' k h'. let (same, sized) = keep_column type c c' k (h.0, h.1) in (same, sized, h')

  fetch_truncated-AreColumns :
      (stmt i : ℕ) (types : List CType) (cs : List Column) (m : Machine api.World)
      → AreColumns types cs
      → Ensures (fetch_truncated stmt i cs m) λ ((_, cs'), _). AreColumns types cs'
  unfolding fetch_truncated
  fetch_truncated-AreColumns stmt i [] [] m h = tt
  fetch_truncated-AreColumns stmt i [] (c ∷ cs) m h = absurd h
  fetch_truncated-AreColumns stmt i (type ∷ types) [] m h = absurd h
  fetch_truncated-AreColumns stmt i (type ∷ types) (c ∷ cs) m h =
      Ensures-seq (λ ((_, c'), _). Keeps c c') _
        (when exceeds c then refetch stmt i c else pure (true, c)) _ m
        (Ensures-when _ (exceeds c) (refetch stmt i c) (pure (true, c)) m
          (λ over. refetch-Keeps stmt i c m over) (λ _. Keeps-refl c))
        λ (done, c') m' k.
          let (same, sized) = keep_column type c c' k (h.0, h.1) in
          Ensures-when _ done _ (pure (false, c' ∷ cs)) m'
            (λ _.
              Ensures-seq _ _ (fetch_truncated stmt (i + 1) cs) _ m'
                (fetch_truncated-AreColumns stmt (i + 1) types cs m' h.2)
                λ r m'' h'. (same, sized, h'))
            (λ _. (same, sized, h.2))

  pub complete-AreColumns :
      (stmt : ℕ) (truncated : Bool) (types : List CType) (cs : List Column) (m : Machine api.World)
      → AreColumns types cs
      → Ensures (complete stmt truncated cs m) λ (cs', _). AreColumns types cs'
  unfolding complete
  complete-AreColumns stmt truncated types cs m h =
      Ensures-when _ truncated _ (pure cs) m
        (λ _.
          Ensures-seq _ _ (fetch_truncated stmt 0 cs) _ m
            (fetch_truncated-AreColumns stmt 0 types cs m h) λ r m' h'. h')
        (λ _. h)

  step_tuple_set-HasType : (c : Column) → IsSized c → Ensures (step_tuple_set c) (HasType c.type)
  unfolding step_tuple_set
  step_tuple_set-HasType c sized = elim (Bool-cases (is_dynamic c.type)) [
    | inl dynamic ↦
        always (HasType c.type) (step_tuple_set c) λ v fixed. absurd (cc (sym fixed ∙ dynamic))
    | inr fixed ↦ rw (fixed, step_tuple_set) (λ _. sized fixed)
  ]

  pub set_result_tuple-RowHasTypes :
      (types : List CType) (cs : List Column)
      → AreColumns types cs
      → Ensures (set_result_tuple cs) (RowHasTypes types)
  unfolding set_result_tuple
  set_result_tuple-RowHasTypes [] [] h = tt
  set_result_tuple-RowHasTypes [] (c ∷ cs) h = absurd h
  set_result_tuple-RowHasTypes (type ∷ types) [] h = absurd h
  set_result_tuple-RowHasTypes (type ∷ types) (c ∷ cs) h =
      Ensures-both_of _ (λ v vs. v ∷ vs) (step_tuple_set c) (set_result_tuple cs)
        (step_tuple_set-HasType c h.1) (set_result_tuple-RowHasTypes types cs h.2)
        λ v vs typed rest. (subst (λ ty. HasType ty v) h.0 typed, rest)
