-- ===== src/Socks/Stream.antt =====
-- A client connection: the bytes that will arrive, the bytes written, and whether writing works. A
-- handshake step returns its result or an error beside the connection that it leaves.
use kubeport.Prelude.{
  ℕ, zero, suc, ◌≡◌, refl, ◌↔◌, Bool, true, false, ◌&&◌, Option, none, some, List, [], ◌∷◌, ◌++◌,
  length, ◌==◌, if◌then◌else◌, arith, Option-cases, inl, inr,
}

pub data SocksError : Type 0 where
  short_read write_failed no_acceptable_method auth_failed : SocksError
  bad_version bad_auth_version bad_command bad_address_type : ℕ → SocksError

pub data Outcome (A : Type 0) : Type 0 where
  ok : A → Outcome A
  err : SocksError → Outcome A

pub record Conn : Type 0 where
  pub input : List ℕ
  pub output : List ℕ
  pub writable : Bool

abbrev pub M : Type 0 → Type 0
M A = Conn → Outcome A × Conn

abbrev pub continue : {A B : Type 0} → Outcome A → (A → M B) → M B
continue (ok a) f c = f a c
continue (err e) f c = (err e, c)

abbrev pub pure : {A : Type 0} → A → M A
pure a c = (ok a, c)

abbrev pub raise : {A : Type 0} → SocksError → M A
raise e c = (err e, c)

-- a step and the one that takes its result
abbrev pub ◌>>=◌ : {A B : Type 0} → M A → (A → M B) → M B
◌>>=◌ first next c = let (r, c') = first c in continue r next c'

abbrev pub ◌>>◌ : {A B : Type 0} → M A → M B → M B
first >> second = first >>= λ _. second

infixl 5 ◌>>=◌ ◌>>◌
-- the first n bytes and the rest, if there are as many
unfoldable pub split : ℕ → List ℕ → Option (List ℕ × List ℕ)
split zero xs = some ([], xs)
split (suc n) [] = none
split (suc n) (x ∷ xs) = elim (split n xs) [
  | none ↦ none
  | some (taken, rest) ↦ some (x ∷ taken, rest)
]

-- io.ReadFull into a buffer of n bytes: what was read is gone, also when the input ends too soon
unfoldable pub read_full : ℕ → M (List ℕ)
read_full n c = elim (split n c.input) [
  | none ↦ (err short_read, record c { input = [] })
  | some (taken, rest) ↦ (ok taken, record c { input = rest })
]

-- conn.Write with its error looked at
unfoldable pub write : List ℕ → M (Unit {0})
write bs c =
    if c.writable then (ok tt, record c { output = c.output ++ bs }) else (err write_failed, c)

-- conn.Write with its error dropped
unfoldable pub try_write : List ℕ → M (Unit {0})
try_write bs c = (ok tt, if c.writable then record c { output = c.output ++ bs } else c)

-- subtle.ConstantTimeCompare(a, b) == 1
unfoldable pub equal_bytes : List ℕ → List ℕ → Bool
equal_bytes [] [] = true
equal_bytes (x ∷ xs) (y ∷ ys) = x == y && equal_bytes xs ys
equal_bytes _ _ = false

pub equal_bytes_iff : (xs ys : List ℕ) → (equal_bytes xs ys ≡ true) ↔ (xs ≡ ys)
unfolding equal_bytes
equal_bytes_iff [] [] = ground arith
equal_bytes_iff [] (y ∷ ys) = ground arith
equal_bytes_iff (x ∷ xs) [] = ground arith
equal_bytes_iff (x ∷ xs) (y ∷ ys) = ground (arith, equal_bytes_iff xs ys)

pub split-append : (xs rest : List ℕ) → split (length xs) (xs ++ rest) ≡ some (xs, rest)
unfolding split
split-append [] rest = refl
split-append (x ∷ xs) rest = ground (arith, split-append xs rest)

-- what a split that succeeds has taken
pub split-some :
    (n : ℕ) (xs taken rest : List ℕ)
    → split n xs ≡ some (taken, rest)
    → (xs ≡ taken ++ rest) × (length taken ≡ n)
unfolding split
split-some zero xs taken rest h = ground arith
split-some (suc n) [] taken rest h = cc
split-some (suc n) (x ∷ xs) taken rest h = elim (Option-cases (split n xs)) [
  | inl e ↦ ground (arith, e)
  | inr ((t, r), e) ↦ ground (arith, e, split-some n xs t r e)
]
