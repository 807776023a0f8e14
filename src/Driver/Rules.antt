-- ===== src/Driver/Rules.antt =====
-- Rules for the results of a sequence of calls.
use cpp_database.Prelude.{◌≡◌, refl, Bool, true, false}
use cpp_database.Driver.{
  MysqlApi, Machine, Fault, Outcome, returns, faults, Io, Yields, Ensures, when◌then◌else◌, ◌>>=◌,
  ◌>>◌,
}

pub Yields-weaken :
    {A : Type 0} (P Q : A → Type 0) (o : Outcome A)
    → Yields o P
    → ((a : A) → P a → Q a)
    → Yields o Q
Yields-weaken P Q (returns a) p f = f a p
Yields-weaken P Q (faults e) p f = p

pub Ensures-both :
    {A : Type 0} (P Q : A → Type 0) (o : Outcome A)
    → Ensures o P
    → Ensures o Q
    → Ensures o (λ a. P a × Q a)
Ensures-both P Q (returns a) p q = (p, q)
Ensures-both P Q (faults e) p q = tt

pub Yields-both :
    {A : Type 0} (P Q : A → Type 0) (o : Outcome A)
    → Yields o P
    → Ensures o Q
    → Yields o (λ a. P a × Q a)
Yields-both P Q (returns a) p q = (p, q)
Yields-both P Q (faults e) p q = p

module _ ⦃api : MysqlApi⦄ {A B : Type 0} where
  -- A sequence whose first part is known to return, or to fault.
  pub bind_returns :
      (c : Io A) (f : A → Io B) (m : Machine api.World) {a : A} {m' : Machine api.World}
      → c m ≡ returns (a, m')
      → (c >>= f) m ≡ f a m'
  bind_returns c f m e = rw (e, ◌>>=◌)

  pub bind_faults :
      (c : Io A) (f : A → Io B) (m : Machine api.World) {x : Fault}
      → c m ≡ faults x
      → (c >>= f) m ≡ faults x
  bind_faults c f m e = rw (e, ◌>>=◌)

  pub bind_cong :
      (c c' : Io A) (f : A → Io B) (m : Machine api.World) → c m ≡ c' m → (c >>= f) m ≡ (c' >>= f) m
  bind_cong c c' f m e = rw (e, ◌>>=◌)

  bind_cases :
      (P : B × Machine api.World → Type 0) (f : A → Io B) (o : Outcome (A × Machine api.World))
      → ((a : A) (m' : Machine api.World) → o ≡ returns (a, m') → Ensures (f a m') P)
      → Ensures (elim o [ returns (a, m') ↦ f a m' | faults e ↦ faults e ]) P
  bind_cases P f (returns (a, m')) h = h a m' refl
  bind_cases P f (faults e) h = tt

  -- What holds after a sequence holds after its second part, from any result of the first.
  pub Ensures-bind :
      (P : B × Machine api.World → Type 0) (c : Io A) (f : A → Io B) (m : Machine api.World)
      → ((a : A) (m' : Machine api.World) → c m ≡ returns (a, m') → Ensures (f a m') P)
      → Ensures ((c >>= f) m) P
  Ensures-bind P c f m h = bind_cases P f (c m) h

  ensures_cases :
      (Q : A × Machine api.World → Type 0) (P : B × Machine api.World → Type 0) (f : A → Io B)
      (o : Outcome (A × Machine api.World))
      → Ensures o Q
      → ((a : A) (m' : Machine api.World) → Q (a, m') → Ensures (f a m') P)
      → Ensures (elim o [ returns (a, m') ↦ f a m' | faults e ↦ faults e ]) P
  ensures_cases Q P f (returns (a, m')) q h = h a m' q
  ensures_cases Q P f (faults e) q h = tt

  pub Ensures-seq :
      (Q : A × Machine api.World → Type 0) (P : B × Machine api.World → Type 0) (c : Io A)
      (f : A → Io B) (m : Machine api.World)
      → Ensures (c m) Q
      → ((a : A) (m' : Machine api.World) → Q (a, m') → Ensures (f a m') P)
      → Ensures ((c >>= f) m) P
  Ensures-seq Q P c f m q h = ensures_cases Q P f (c m) q h

  yields_cases :
      (Q : A × Machine api.World → Type 0) (P : B × Machine api.World → Type 0) (f : A → Io B)
      (o : Outcome (A × Machine api.World))
      → Yields o Q
      → ((a : A) (m' : Machine api.World) → Q (a, m') → Yields (f a m') P)
      → Yields (elim o [ returns (a, m') ↦ f a m' | faults e ↦ faults e ]) P
  yields_cases Q P f (returns (a, m')) q h = h a m' q
  yields_cases Q P f (faults e) q h = absurd q

  pub Yields-bind :
      (Q : A × Machine api.World → Type 0) (P : B × Machine api.World → Type 0) (c : Io A)
      (f : A → Io B) (m : Machine api.World)
      → Yields (c m) Q
      → ((a : A) (m' : Machine api.World) → Q (a, m') → Yields (f a m') P)
      → Yields ((c >>= f) m) P
  Yields-bind Q P c f m q h = yields_cases Q P f (c m) q h

  pub Yields-then :
      (Q : A × Machine api.World → Type 0) (P : B × Machine api.World → Type 0) (c : Io A)
      (d : Io B) (m : Machine api.World)
      → Yields (c m) Q
      → ((m' : Machine api.World) (a : A) → Q (a, m') → Yields (d m') P)
      → Yields ((c >> d) m) P
  Yields-then Q P c d m q h = yields_cases Q P (λ _. d) (c m) q λ a m' p. h m' a p

module _ ⦃api : MysqlApi⦄ {A : Type 0} where
  -- A test whose answer is known.
  pub when_true :
      (b : Bool) (c d : Io A) (m : Machine api.World) → b ≡ true → (when b then c else d) m ≡ c m
  when_true b c d m e = rw (e, when◌then◌else◌) refl

  pub when_false :
      (b : Bool) (c d : Io A) (m : Machine api.World) → b ≡ false → (when b then c else d) m ≡ d m
  when_false b c d m e = rw (e, when◌then◌else◌) refl

  pub Ensures-when :
      (P : A × Machine api.World → Type 0) (b : Bool) (c d : Io A) (m : Machine api.World)
      → (b ≡ true → Ensures (c m) P)
      → (b ≡ false → Ensures (d m) P)
      → Ensures ((when b then c else d) m) P
  Ensures-when P true c d m hc hd = hc refl
  Ensures-when P false c d m hc hd = hd refl

  pub Yields-when :
      (P : A × Machine api.World → Type 0) (b : Bool) (c d : Io A) (m : Machine api.World)
      → (b ≡ true → Yields (c m) P)
      → (b ≡ false → Yields (d m) P)
      → Yields ((when b then c else d) m) P
  Yields-when P true c d m hc hd = hc refl
  Yields-when P false c d m hc hd = hd refl
