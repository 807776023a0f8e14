-- ===== src/Proxy/Overlap/Orderly.antt =====
-- Callers that wait: each handle has at most one outstanding call at any time.
use cpp_database.Prelude.{
  ℕ, zero, suc, ◌+◌, ◌≤◌, ◌≡◌, refl, sym, subst, ap, none, some, Option, List, [], ◌∷◌, ◌++◌,
  length, length-append, get_elem?, set, arith, All, All-get_elem?, if◌then◌else◌, ◌==◌,
}
use cpp_database.Pool.Threads.Exclusive.{sum, sum-set}
use cpp_database.Transaction.{started, roll_backed}
use cpp_database.Proxy.Overlap.{
  System, Handle, Task, Step, begin, call, lose, answer, ended, end_taken, end_kept, go,
}

-- How often a connection is in a list, in a handle, and in the outstanding calls of a handle.
abbrev pub one : ℕ → ℕ → ℕ
one x c = if c == x then 1 else 0

abbrev pub held : ℕ → Handle → ℕ
held x h = elim h.executor [ none ↦ 0 | some c ↦ one x c ]

abbrev pub in_calls : ℕ → Handle → ℕ
in_calls x h = sum (λ (t : Task). one x t.conn) h.tasks

abbrev pub places : ℕ → System → ℕ
places x y = sum (one x) y.idle + sum (held x) y.handles

-- How often a connection is in the pool or in use by an outstanding call.
abbrev pub uses : ℕ → System → ℕ
uses x y = sum (one x) y.idle + sum (in_calls x) y.handles

-- No handle has two outstanding calls.
abbrev pub WaitsOnce : Handle → Type 0
WaitsOnce h = length h.tasks ≤ 1

abbrev pub AreAwaited : System → Type 0
AreAwaited y = All WaitsOnce y.handles

-- The outstanding calls of a handle use the connection that it has.
abbrev pub Fits : Handle → Type 0
Fits h = All (λ (t : Task). h.executor ≡ some t.conn) h.tasks

-- Every connection is in the pool or in one handle, and is there once.
abbrev pub AreApart : System → Type 0
AreApart y = ((x : ℕ) → places x y ≤ 1) × All Fits y.handles

-- Runs in which the callers wait.
pub data Awaiting (y : System) : System → Type 0 where
  start : AreAwaited y → Awaiting y y
  next : {y₁ y₂ : System} → Awaiting y y₁ → Step y₁ y₂ → AreAwaited y₂ → Awaiting y y₂

All-set :
    {A : Type 0} (P : A → Type 0) (xs : List A) (i : ℕ) (a : A)
    → All P xs
    → P a
    → All P (set xs i a)
All-set P [] i a h p = tt
All-set P (x ∷ xs) zero a h p = (p, h.1)
All-set P (x ∷ xs) (suc i) a h p = (h.0, All-set P xs i a h.1 p)

All-remove :
    {A : Type 0} (P : A → Type 0) (xs : List A) (a : A) (ys : List A)
    → All P (xs ++ a ∷ ys)
    → All P (xs ++ ys)
All-remove P [] a ys h = h.1
All-remove P (x ∷ xs) a ys h = (h.0, All-remove P xs a ys h.1)

sum-remove :
    (w : ℕ → ℕ) (xs : List ℕ) (a : ℕ) (ys : List ℕ) → sum w (xs ++ a ∷ ys) ≡ w a + sum w (xs ++ ys)
sum-remove w [] a ys = refl
sum-remove w (x ∷ xs) a ys = omega (arith, sum-remove w xs a ys)

-- The call that ends a transaction is the only one.
only :
    {A : Type 0} (ts : List A) (before : List A) (t : A) (after : List A)
    → ts ≡ before ++ t ∷ after
    → length ts ≤ 1
    → before ++ after ≡ []
only ts [] t [] e h = refl
only ts [] t (u ∷ after) e h = absurd (omega (arith, ap length e))
only ts (u ∷ before) t after e h =
    absurd (omega (arith, ap length e, length-append before (t ∷ after)))

-- The places after a step that changes one handle.
places-go :
    (x : ℕ) (y : System) (i : ℕ) (old h : Handle)
    → get_elem? y.handles i ≡ some old
    → places x (go y i h) + held x old ≡ places x y + held x h
places-go x y i old h e = omega (arith, sum-set (held x) y.handles i old h e)

fits_none : (h : Handle) → h.tasks ≡ [] → Fits h
fits_none h e =
    subst (λ (ts : List Task). All (λ (t : Task). h.executor ≡ some t.conn) ts) (sym e) tt

held-none : (x : ℕ) (h : Handle) → h.executor ≡ none → held x h ≡ 0
held-none x h e = ap (λ (o : Option ℕ). elim o [ none ↦ 0 | some c ↦ one x c ]) e

held-some : (x c : ℕ) (h : Handle) → h.executor ≡ some c → held x h ≡ one x c
held-some x c h e = ap (λ (o : Option ℕ). elim o [ none ↦ 0 | some c ↦ one x c ]) e

-- A step adds no place of a connection.
Step-places : (y z : System) (x : ℕ) → Step y z → places x z ≤ places x y
Step-places y z x (begin _ i h c before after at _ free there) = omega (
  arith,
  places-go x y i h (record h { state = started; executor = some c }) at,
  held-none x h free,
  ap (sum (one x)) there,
  sum-remove (one x) before c after,
)
Step-places y z x (call _ i h c kind at _ _) =
    omega (
      arith,
      places-go x y i h (record h { tasks = record { conn = c; kind = kind } ∷ h.tasks }) at,
    )
Step-places y z x (lose _ i h at _) =
    omega (arith, places-go x y i h (record h { state = roll_backed }) at)
Step-places y z x (answer _ i h t before after at _) =
    omega (arith, places-go x y i h (record h { tasks = before ++ after }) at)
Step-places y z x (end_taken _ i h t before after rollback c at _ _ has) = omega (
  arith,
  places-go x y i h (record { state = ended rollback; executor = none; tasks = before ++ after })
      at,
  held-some x c h has,
)
Step-places y z x (end_kept _ i h t before after rollback at _ _) =
    omega
      (arith, places-go x y i h (record h { state = ended rollback; tasks = before ++ after }) at)

-- A handle without a connection has no outstanding call.
Fits-free :
    (h : Handle)
    → h.executor ≡ none
    → (o : Option ℕ) (ts : List Task) → All (λ (t : Task). h.executor ≡ some t.conn) ts
    → All (λ (t : Task). o ≡ some t.conn) ts
Fits-free h free o [] f = tt
Fits-free h free o (t ∷ ts) f = absurd (ground (arith, free, f.0))

-- A step of callers that wait leaves the calls of a handle on the connection that it has.
Step-Fits : (y z : System) → Step y z → AreAwaited y → All Fits y.handles → All Fits z.handles
Step-Fits y z (begin _ i h c before after at _ free _) once fits =
    All-set Fits y.handles i (record h { state = started; executor = some c }) fits
      (Fits-free h free (some c) h.tasks (All-get_elem? Fits y.handles i h fits at))
Step-Fits y z (call _ i h c kind at _ has) once fits =
    All-set Fits y.handles i (record h { tasks = record { conn = c; kind = kind } ∷ h.tasks }) fits
      (has, All-get_elem? Fits y.handles i h fits at)
Step-Fits y z (lose _ i h at _) once fits =
    All-set Fits y.handles i (record h { state = roll_backed }) fits
      (All-get_elem? Fits y.handles i h fits at)
Step-Fits y z (answer _ i h t before after at is) once fits =
    All-set Fits y.handles i (record h { tasks = before ++ after }) fits
      (All-remove (λ (t : Task). h.executor ≡ some t.conn) before t after
        (subst (All (λ (t : Task). h.executor ≡ some t.conn)) is
          (All-get_elem? Fits y.handles i h fits at)))
Step-Fits y z (end_taken _ i h t before after rollback c at is _ has) once fits =
    All-set Fits y.handles i
      (record { state = ended rollback; executor = none; tasks = before ++ after }) fits
      (fits_none (record { state = ended rollback; executor = none; tasks = before ++ after })
        (only h.tasks before t after is (All-get_elem? WaitsOnce y.handles i h once at)))
Step-Fits y z (end_kept _ i h t before after rollback at is _) once fits =
    All-set Fits y.handles i (record h { state = ended rollback; tasks = before ++ after }) fits
      (All-remove (λ (t : Task). h.executor ≡ some t.conn) before t after
        (subst (All (λ (t : Task). h.executor ≡ some t.conn)) is
          (All-get_elem? Fits y.handles i h fits at)))

Awaiting-AreApart : (y z : System) → Awaiting y z → AreApart y → AreApart z × AreAwaited z
Awaiting-AreApart y z (start once) apart = (apart, once)
Awaiting-AreApart y z (next {y₁} run step once) apart =
    let before = Awaiting-AreApart y y₁ run apart in
    (
      (
        λ x. omega (arith, before.0.0 x, Step-places y₁ z x step),
        Step-Fits y₁ z step before.1 before.0.1,
      ),
      once,
    )

-- A single call takes the place of the handle that it belongs to.
in_calls-le : (x : ℕ) (h : Handle) → Fits h → WaitsOnce h → in_calls x h ≤ held x h
in_calls-le x h fits once = by_tasks h.tasks fits once
  where
    by_tasks :
        (ts : List Task)
        → All (λ (t : Task). h.executor ≡ some t.conn) ts
        → length ts ≤ 1
        → sum (λ (t : Task). one x t.conn) ts ≤ held x h
    by_tasks [] f o = omega arith
    by_tasks (t ∷ []) f o = omega (arith, held-some x t.conn h f.0)
    by_tasks (t ∷ u ∷ ts) f o = absurd (omega arith)

sum-in_calls-le :
    (x : ℕ) (hs : List Handle)
    → All Fits hs
    → All WaitsOnce hs
    → sum (in_calls x) hs ≤ sum (held x) hs
sum-in_calls-le x [] fits once = omega arith
sum-in_calls-le x (h ∷ hs) fits once =
    omega (arith, in_calls-le x h fits.0 once.0, sum-in_calls-le x hs fits.1 once.1)

-- Where each connection is in the pool or in one handle, and there once, the outstanding calls of a
-- handle are on its connection, and the callers start no call on a handle before the one before it
-- is done, each connection is in the pool or in use by one outstanding call, never both, and by no
-- two calls.
pub Awaiting-uses : (y z : System) (x : ℕ) → Awaiting y z → AreApart y → uses x z ≤ 1
Awaiting-uses y z x run apart =
    let after = Awaiting-AreApart y z run apart in
    omega (arith, after.0.0 x, sum-in_calls-le x z.handles after.0.1 after.1)
