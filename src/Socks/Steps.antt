-- ===== src/Socks/Steps.antt =====
-- Steps of the handshake that succeed, undone: what each has taken from the client's bytes.
use kubeport.Prelude.{
  ℕ, ◌≡◌, refl, sym, ◌∙◌, ap, inl, inr, List, [], ◌∷◌, ◌++◌, length, arith, Bool-cases,
  Option-cases,
}
use kubeport.Socks.Stream.{
  M, Conn, Outcome, ok, err, continue, split, split-some, read_full, write, ◌>>=◌,
}
use kubeport.Socks.{the_byte, read_byte, read_field}

-- a step that succeeds after another: the other succeeded
pub >>=-ok :
    {A B : Type 0} (m : M A) (f : A → M B) (c c₂ : Conn) (b : B)
    → (m >>= f) c ≡ (ok b, c₂)
    → (a : A) × (c₁ : Conn) × (m c ≡ (ok a, c₁)) × (f a c₁ ≡ (ok b, c₂))
>>=-ok m f c c₂ b h = finish (m c) refl
  where
    finish :
        (r : Outcome _ × Conn)
        → m c ≡ r
        → (a : _) × (c₁ : Conn) × (m c ≡ (ok a, c₁)) × (f a c₁ ≡ (ok b, c₂))
    finish (ok a, c₁) e = (a, c₁, e, (sym (ap (λ r. continue r.0 f r.1) e)) ∙ h)
    finish (err x, c₁) e = cc

pub read_full-ok :
    (n : ℕ) (bs : List ℕ) (c c₁ : Conn)
    → read_full n c ≡ (ok bs, c₁)
    → (c.input ≡ bs ++ c₁.input) × (length bs ≡ n)
unfolding read_full
read_full-ok n bs c c₁ h = elim (Option-cases (split n c.input)) [
  | inl e ↦ ground (arith, h, e)
  | inr ((t, r), e) ↦ ground (arith, h, e, split-some n c.input t r e)
]

pub write-ok :
    (bs : List ℕ) (u : Unit {0}) (c c₁ : Conn) → write bs c ≡ (ok u, c₁) → c.input ≡ c₁.input
unfolding write
write-ok bs u c c₁ h = elim (Bool-cases c.writable) [
  | inl e ↦ ground (arith, h, e)
  | inr e ↦ ground (arith, h, e)
]

-- the byte read is the client's first
pub read_byte-ok : (b : ℕ) (c c₁ : Conn) → read_byte c ≡ (ok b, c₁) → c.input ≡ b ∷ c₁.input
unfolding read_byte
read_byte-ok b c c₁ h =
    let (bs, c₂, taken, rest) = >>=-ok (read_full 1) the_byte c c₁ b h in
    let (input, one) = read_full-ok 1 bs c c₂ taken in one_byte bs c₂ rest one input
  where
    one_byte :
        (bs : List ℕ) (c₂ : Conn)
        → the_byte bs c₂ ≡ (ok b, c₁)
        → length bs ≡ 1
        → c.input ≡ bs ++ c₂.input
        → c.input ≡ b ∷ c₁.input
    one_byte [] c₂ rest one input = cc
    one_byte (x ∷ []) c₂ rest one input = ground (arith, rest, input)
    one_byte (x ∷ y ∷ xs) c₂ rest one input = ground (arith, one)

-- a field read is sent as its length and its bytes
pub read_field-ok :
    (bs : List ℕ) (c c₁ : Conn) → read_field c ≡ (ok bs, c₁) → c.input ≡ length bs ∷ bs ++ c₁.input
unfolding read_field
read_field-ok bs c c₁ h =
    let (n, c₂, counted, rest) = >>=-ok read_byte read_full c c₁ bs h in
    let (input, n_is) = read_full-ok n bs c₂ c₁ rest in
    ground (arith, read_byte-ok n c c₂ counted, input, n_is)
