-- ===== src/Blob/Assignment.antt =====
-- Copies, moves and comparisons of blobs.
use cpp_database.Prelude.{
  ℕ, ◌≡◌, ◌≢◌, refl, sym, subst, ap, ◌∙◌, true, false, some, List, [], ◌∷◌, get_elem?,
  get_elem?-set, get_elem?-set_other, set, set_same, arith, ◌==◌, ==_iff, if◌then◌else◌, Bool-cases,
  ◌↔◌, inl, inr,
}
use cpp_database.Prelude.Text.{Bytes, same}
use cpp_database.Blob.{MysqlBlob, StringApi, copy_assign, move_assign, equals, as_string_view}

same-eq : (xs ys : Bytes) → same xs ys ≡ true → xs ≡ ys
same-eq [] [] h = refl
same-eq [] (y ∷ ys) h = absurd (cc)
same-eq (x ∷ xs) [] h = absurd (cc)
same-eq (x ∷ xs) (y ∷ ys) h = ground (arith, same-eq xs ys)

same_refl : (xs : Bytes) → same xs xs ≡ true
same_refl [] = refl
same_refl (x ∷ xs) = ground (arith, same_refl xs)

-- A list read after a write to a place that it has.
get_elem?-set_if :
    {A : Type 0} (xs : List A) (i k : ℕ) (a b : A)
    → get_elem? xs i ≡ some a
    → get_elem? (set xs i b) k ≡ (if k == i then some b else get_elem? xs k)
get_elem?-set_if xs i k a b at = elim (Bool-cases (k == i)) [
  | inl here ↦
      let same_place : k ≡ i = (==_iff k i).0 here in
      rw here (
        subst (λ j. get_elem? (set xs i b) j ≡ some b) (sym same_place) (get_elem?-set xs i a b at))
  | inr other ↦
      rw other
        (get_elem?-set_other xs i k b (λ e. absurd (cc (sym other ∙ (==_iff k i).1 (sym e)))))
]

-- Copy assignment, of an object to itself too.
copy_assign_lem :
    (objects : List MysqlBlob) (i j k : ℕ) (a b : MysqlBlob)
    → get_elem? objects i ≡ some a
    → get_elem? objects j ≡ some b
    → get_elem? (copy_assign objects i j) k ≡ (if k == i then some b else get_elem? objects k)
unfolding copy_assign
copy_assign_lem objects i j k a b at_i at_j = elim (Bool-cases (i == j)) [
  | inl self ↦
      let here : get_elem? objects i ≡ some b =
        ap (get_elem? objects) ((==_iff i j).0 self) ∙ at_j in
      rw (at_j, copy_assign, self)
        (ap (λ (xs : List MysqlBlob). get_elem? xs k) (sym (set_same objects i b here))
          ∙ get_elem?-set_if objects i k a b at_i)
  | inr other ↦ rw (at_j, copy_assign, other) (get_elem?-set_if objects i k a b at_i)
]

module _ ⦃strings : StringApi⦄ where
  move_assign_self :
      (objects : List MysqlBlob) (i : ℕ) (a : MysqlBlob)
      → get_elem? objects i ≡ some a
      → move_assign objects i i ≡ objects
  unfolding move_assign
  move_assign_self objects i a at = rw (at, move_assign, (==_iff i i).1 refl) refl

  move_assign_lem :
      (objects : List MysqlBlob) (i j k : ℕ) (a b : MysqlBlob)
      → i ≢ j
      → get_elem? objects i ≡ some a
      → get_elem? objects j ≡ some b
      → get_elem? (move_assign objects i j) k ≡ (
          if k == j
          then some (record { bytes = strings.moved_from b.bytes })
          else if k == i
          then some b
          else get_elem? objects k)
  unfolding move_assign
  move_assign_lem objects i j k a b apart at_i at_j =
      let differ : (i == j) ≡ false = ground (arith, apart) in
      let kept : get_elem? (set objects i b) j ≡ some b =
        get_elem?-set_other objects i j b apart ∙ at_j in
      let moved : MysqlBlob = record { bytes = strings.moved_from b.bytes } in
      rw (at_j, move_assign, differ)
        (get_elem?-set_if (set objects i b) j k b moved kept
          ∙ ap (λ o. if k == j then some moved else o) (get_elem?-set_if objects i k a b at_i))

  -- Of any two objects among many, copy assignment gives the first the value of the second, whether
  -- they are the same object or not, and leaves all others; move assignment gives the first the value
  -- of the second, leaves something in the second, and leaves all others, or it leaves every object if
  -- both are the same; and two objects compare as equal exactly when they hold the same bytes.
  assign_lem :
      (objects : List MysqlBlob) (i j k : ℕ) (a b : MysqlBlob)
      → get_elem? objects i ≡ some a
      → get_elem? objects j ≡ some b
      → (get_elem? (copy_assign objects i j) k ≡ (if k == i then some b else get_elem? objects k))
        × (get_elem? (move_assign objects i j) k ≡ (
            if i == j
            then get_elem? objects k
            else if k == j
            then some (record { bytes = strings.moved_from b.bytes })
            else if k == i
            then some b
            else get_elem? objects k))
        × ((equals a b ≡ true) ↔ (as_string_view a ≡ as_string_view b))
  unfolding equals as_string_view
  assign_lem objects i j k a b at_i at_j = (
    copy_assign_lem objects i j k a b at_i at_j,
    elim (Bool-cases (i == j)) [
      | inl self ↦ rw self (
          ap (λ x. get_elem? (move_assign objects i x) k) (sym ((==_iff i j).0 self))
          ∙ ap (λ xs. get_elem? xs k) (move_assign_self objects i a at_i))
      | inr other ↦ rw other (
          move_assign_lem objects i j k a b (λ e. absurd (cc (sym other ∙ (==_iff i j).1 e))) at_i
            at_j)
    ],
    (same-eq a.bytes b.bytes, λ e. subst (λ x. same a.bytes x ≡ true) e (same_refl a.bytes)),
  )
