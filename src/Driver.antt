-- ===== src/Driver.antt =====
-- The MySQL client library and the clock as the program sees them. What they answer is a parameter;
-- which handles are allocated is kept by the model, so that a call on a handle that was closed, or
-- on a null handle, is a fault.
pub mod Calls
pub mod Rules
use cpp_database.Prelude.{
  ℕ, ◌≡◌, refl, subst, ◌⊎◌, inl, inr, Bool, true, false, List, Option, none, some,
}
use cpp_database.Prelude.Text.{Bytes}

-- struct MysqlConnOption of trpc/client/mysql/executor/mysql_executor.h.
pub record MysqlConnOption : Type 0 where
  pub hostname : Bytes
  pub username : Bytes
  pub password : Bytes
  pub database : Bytes
  pub port : ℕ
  pub char_set : Bytes

-- A stored result: its pointer, the names of its fields, and its rows, where a null pointer in place
-- of a value is `none`.
pub record StoredResult : Type 0 where
  pub res : ℕ
  pub names : List Bytes
  pub num_fields : ℕ
  pub rows : List (List (Option Bytes))

-- One member for each function that the program calls; a Bool tells whether the call succeeded.
-- The argument of type ℕ is the handle.
pub record MysqlApi : Type 1 where
  pub World : Type 0
  pub init : World → Bool × World
  pub set_character_set : ℕ → Bytes → World → World
  pub set_timeouts : ℕ → ℕ → World → World
  pub real_connect : ℕ → MysqlConnOption → World → Bool × World
  pub close : ℕ → World → World
  pub ping : ℕ → World → Bool × World
  pub autocommit : ℕ → Bool → World → Bool × World
  pub real_query : ℕ → Bytes → World → Bool × World
  -- mysql_store_result, with what mysql_fetch_row and the like then report of the result.
  pub store_result : ℕ → World → Option StoredResult × World
  pub affected_rows : ℕ → World → ℕ
  pub errno : ℕ → World → ℕ
  pub error : ℕ → World → Bytes
  pub steady_milliseconds : World → ℕ × World
  pub sleep : ℕ → World → World

pub data Fault : Type 0 where
  null_handle use_after_free assertion_failed division_by_zero out_of_bounds out_of_fuel : Fault

pub data Outcome {ℓ} (A : Type ℓ) : Type ℓ where
  returns : A → Outcome A
  faults : Fault → Outcome A

-- To split on a computed outcome.
pub Outcome-cases {ℓ} :
    {A : Type ℓ} (o : Outcome A) → ((a : A) × (o ≡ returns a)) ⊎ ((f : Fault) × (o ≡ faults f))
Outcome-cases (returns a) = inl (a, refl)
Outcome-cases (faults f) = inr (f, refl)

-- The call returns, with a result that has the property.
abbrev pub Yields {ℓ} : {A : Type ℓ} → Outcome A → (A → Type 0) → Type 0
Yields (returns a) P = P a
Yields (faults e) P = ⊥

-- If the call returns, its result has the property.
abbrev pub Ensures {ℓ} : {A : Type ℓ} → Outcome A → (A → Type 0) → Type 0
Ensures (returns a) P = P a
Ensures (faults e) P = Unit

pub Ensures-at {ℓ} :
    {A : Type ℓ} (P : A → Type 0) (o : Outcome A) {a : A} → o ≡ returns a → Ensures o P → P a
Ensures-at P o {a} e h = subst (λ x. Ensures x P) e h

pub Ensures-weaken {ℓ} :
    {A : Type ℓ} (P Q : A → Type 0) (o : Outcome A)
    → Ensures o P
    → ((a : A) → P a → Q a)
    → Ensures o Q
Ensures-weaken P Q (returns a) h w = w a h
Ensures-weaken P Q (faults f) h w = tt

-- The world, the handles that are allocated, and the next handle to be allocated.
pub record Machine (World : Type 0) : Type 0 where
  pub world : World
  pub live : List ℕ
  pub next : ℕ

module _ ⦃api : MysqlApi⦄ where
  abbrev pub Io : Type 0 → Type 0
  Io A = Machine api.World → Outcome (A × Machine api.World)

module _ ⦃api : MysqlApi⦄ {A : Type 0} where
  abbrev pub pure : A → Io A
  pure a m = returns (a, m)

  -- A test between two commands.
  infix 1 when◌then◌else◌
  abbrev pub when◌then◌else◌ : Bool → Io A → Io A → Io A
  when◌then◌else◌ true c d m = c m
  when◌then◌else◌ false c d m = d m

module _ ⦃api : MysqlApi⦄ {A B : Type 0} where
  infixl 5 ◌>>=◌ ◌>>◌
  abbrev pub ◌>>=◌ : Io A → (A → Io B) → Io B
  ◌>>=◌ c f m = elim (c m) [ returns (a, m') ↦ f a m' | faults e ↦ faults e ]

  abbrev pub ◌>>◌ : Io A → Io B → Io B
  ◌>>◌ c d m = elim (c m) [ returns (a, m') ↦ d m' | faults e ↦ faults e ]
