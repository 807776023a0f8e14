-- ===== src/Binder/Fields.antt =====
-- The check of the fields passes exactly when every field fits its argument.
use cpp_database.Prelude.{ℕ, ◌≡◌, refl, true, List, [], ◌∷◌, ◌++◌, if◌then◌else◌}
use cpp_database.Prelude.Text.{Bytes, codes}
use cpp_database.Binder.{CType, MysqlField, output_type_valid, name_at, step_input_bind}

-- Each field has an argument, and fits it.
abbrev pub Fits : List MysqlField → List CType → Type 0
Fits [] [] = Unit
Fits (f ∷ fs) (ty ∷ tys) = (output_type_valid ty f.type ≡ true) × Fits fs tys
Fits _ _ = ⊥

-- What a value of each type is sent as is accepted when it is read back at the same type.
pub input_type-valid :
    (ty : CType) (size : ℕ) → output_type_valid ty (step_input_bind ty size).buffer_type ≡ true
unfolding output_type_valid step_input_bind
input_type-valid CType.int8 size = refl
input_type-valid _ size = refl

-- The names of the fields that do not fit, in order.
abbrev pub misfits : List MysqlField → List CType → List Bytes
misfits (f ∷ fs) (ty ∷ tys) =
    let rest = misfits fs tys in if output_type_valid ty f.type then rest else f.name ∷ rest
misfits _ _ = []

abbrev pub comma_names : List Bytes → Bytes
comma_names [] = []
comma_names (n ∷ ns) = codes ", " ++ (n ++ comma_names ns)

-- The names at positions.
abbrev names_at : List MysqlField → List ℕ → List Bytes
names_at fields [] = []
names_at fields (i ∷ is) = name_at fields i ∷ names_at fields is
