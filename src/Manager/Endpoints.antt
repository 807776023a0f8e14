-- ===== src/Manager/Endpoints.antt =====
-- The text of an address that names its pool in MysqlExecutorPoolManager::Get: different addresses
-- have different texts.
use cpp_database.Prelude.{
  ℕ, zero, suc, ◌-◌, ◌^◌, ◌≤◌, ◌<◌, ◌≡◌, ◌≢◌, refl, sym, ap, subst, ◌∙◌, true, List, [], ◌∷◌, ◌++◌,
  arith, length, length-append, take_all, replicate, All, All-append,
}
use cpp_database.Prelude.Text.{Bytes}
use cpp_database.Pool.{NodeAddr}
use cpp_database.Time.Printf.{decimal, is_digit}
use cpp_database.Time.Decimal.{decimal-AreDigits, length-decimal, decimal-injective}
use cpp_database.Manager.{endpoint, endpoint_len}

-- No zero byte, and no colon.
abbrev NoZero : Bytes → Type 0
NoZero = All (λ c. c ≢ 0)

abbrev NoColon : Bytes → Type 0
NoColon = All (λ c. c ≢ b':')

module _ {A : Type 0} (P : A → Type 0) where
  All-last : (xs : List A) (y : A) (ys : List A) → All P (xs ++ y ∷ ys) → P y
  All-last [] y ys h = h.0
  All-last (x ∷ xs) y ys h = All-last xs y ys h.1

All-weaken :
    {A : Type 0} (P Q : A → Type 0) (xs : List A) → ((a : A) → P a → Q a) → All P xs → All Q xs
All-weaken P Q [] w h = tt
All-weaken P Q (x ∷ xs) w h = (w x h.0, All-weaken P Q xs w h.1)

head_eq : {x y : ℕ} {xs ys : Bytes} → x ∷ xs ≡ y ∷ ys → (x ≡ y) × (xs ≡ ys)
head_eq e = (cc, cc)

-- The padding determines where a text with no zero byte ends.
unpad :
    (s t : Bytes) (i j : ℕ) → NoZero s → NoZero t → s ++ replicate i 0 ≡ t ++ replicate j 0 → s ≡ t
unpad [] [] i j hs ht e = refl
unpad [] (y ∷ t) zero j hs ht e = absurd (cc)
unpad [] (y ∷ t) (suc i) j hs ht e = absurd (ht.0 (sym (head_eq e).0))
unpad (x ∷ s) [] i zero hs ht e = absurd (cc)
unpad (x ∷ s) [] i (suc j) hs ht e = absurd (hs.0 (head_eq e).0)
unpad (x ∷ s) (y ∷ t) i j hs ht e =
    let (same, rest) = head_eq e in let tails : s ≡ t = unpad s t i j hs.1 ht.1 rest in cc

-- The last colon separates the two parts.
split_last :
    (xs ys d e : Bytes)
    → NoColon d
    → NoColon e
    → xs ++ b':' ∷ d ≡ ys ++ b':' ∷ e
    → (xs ≡ ys) × (d ≡ e)
split_last [] [] d e hd he q = (refl, (head_eq q).1)
split_last [] (y ∷ ys) d e hd he q =
    absurd (All-last (λ c. c ≢ b':') ys b':' e (subst NoColon (head_eq q).1 hd) refl)
split_last (x ∷ xs) [] d e hd he q =
    absurd (All-last (λ c. c ≢ b':') xs b':' d (subst NoColon (sym (head_eq q).1) he) refl)
split_last (x ∷ xs) (y ∷ ys) d e hd he q =
    let (same, rest) = head_eq q in
    let (tails, digits) = split_last xs ys d e hd he rest in (cc, digits)

-- The address fits the text of 64 bytes with its zero byte, the port has 16 bits.
pub record Fits (addr : NodeAddr) : Type 0 where
  pub no_zero : NoZero addr.ip
  pub short : length addr.ip ≤ 57
  pub port_small : addr.port < 2 ^ 16

abbrev text_of : NodeAddr → Bytes
text_of addr = addr.ip ++ b':' ∷ decimal addr.port

text_of-NoZero : (addr : NodeAddr) → Fits addr → NoZero (text_of addr)
text_of-NoZero addr h =
    All-append (λ c. c ≢ 0) addr.ip (b':' ∷ decimal addr.port) h.no_zero
      (
        omega arith,
        All-weaken (λ c. is_digit c ≡ true) (λ c. c ≢ 0) (decimal addr.port)
            (λ c digit zero_byte. ground arith) (decimal-AreDigits addr.port),
      )

length-text_of : (addr : NodeAddr) → Fits addr → length (text_of addr) ≤ endpoint_len - 1
length-text_of addr h =
    let small = h.port_small in
    let short = h.short in
    omega (
      arith,
      length-append {0} addr.ip (b':' ∷ decimal addr.port),
      length-decimal 4 addr.port (omega arith),
    )

endpoint-Fits :
    (addr : NodeAddr)
    → Fits addr
    → endpoint addr ≡ text_of addr ++ replicate (endpoint_len - length (text_of addr)) 0
unfolding endpoint
endpoint-Fits addr h =
    ap (λ text. text ++ replicate (endpoint_len - length text) 0)
      (take_all (endpoint_len - 1) (text_of addr) (length-text_of addr h))

decimal-NoColon : (n : ℕ) → NoColon (decimal n)
decimal-NoColon n =
    All-weaken (λ c. is_digit c ≡ true) (λ c. c ≢ b':') (decimal n) (λ c digit colon. ground arith)
      (decimal-AreDigits n)

-- Different addresses have different endpoints.
pub endpoint-injective : (a b : NodeAddr) → Fits a → Fits b → endpoint a ≡ endpoint b → a ≡ b
endpoint-injective a b fa fb e =
    let texts : text_of a ≡ text_of b =
      unpad (text_of a) (text_of b) (endpoint_len - length (text_of a))
        (endpoint_len - length (text_of b)) (text_of-NoZero a fa) (text_of-NoZero b fb)
        (sym (endpoint-Fits a fa) ∙ e ∙ endpoint-Fits b fb) in
    let (ips, digits) =
      split_last a.ip b.ip (decimal a.port) (decimal b.port) (decimal-NoColon a.port)
        (decimal-NoColon b.port) texts in
    let ports = decimal-injective a.port b.port digits in ground arith
