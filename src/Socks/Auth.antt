-- ===== src/Socks/Auth.antt =====
-- Which clients pass the negotiation: those that send the configured credentials.
use kubeport.Prelude.{
  ℕ, ◌≡◌, ◌∙◌, inl, inr, true, List, [], ◌∷◌, ◌++◌, any, length, ◌==◌, ==_iff, arith, Bool-cases,
}
use kubeport.Socks.Stream.{
  Conn, ok, read_full, write, try_write, ◌>>=◌, equal_bytes, equal_bytes_iff,
}
use kubeport.Socks.Client.{hello, credentials}
use kubeport.Socks.Steps.{>>=-ok, read_full-ok, write-ok, read_byte-ok, read_field-ok}
use kubeport.Socks.{
  Server, requires_auth, check_credentials, read_credentials, check_auth_version, user_pass,
  negotiate_user_pass, choose_method, greeting, negotiate, read_byte, read_field, auth_user_pass,
  socks5_version,
}

check_credentials-ok :
    (s : Server) (uname passwd : List ℕ) (u : Unit {0}) (c c₁ : Conn)
    → check_credentials s uname passwd c ≡ (ok u, c₁)
    → (uname ≡ s.username) × (passwd ≡ s.password) × (c.input ≡ c₁.input)
unfolding check_credentials try_write
check_credentials-ok s uname passwd u c c₁ h = elim (Bool-cases (equal_bytes uname s.username)) [
  | inl e ↦ elim (Bool-cases (equal_bytes passwd s.password)) [
    | inl e₂ ↦ ground (
      arith,
      h,
      e,
      e₂,
      equal_bytes_iff uname s.username,
      equal_bytes_iff passwd s.password,
      write-ok (1 ∷ 0 ∷ []) u c c₁,
    )
    | inr e₂ ↦ ground (arith, h, e, e₂)
  ]
  | inr e ↦ ground (arith, h, e)
]

read_credentials-ok :
    (s : Server) (u : Unit {0}) (c c₁ : Conn)
    → read_credentials s c ≡ (ok u, c₁)
    → c.input ≡ length s.username ∷ s.username ++ (length s.password ∷ s.password ++ c₁.input)
unfolding read_credentials
read_credentials-ok s u c c₁ h =
    let (uname, c₂, first, rest) =
      >>=-ok read_field (λ uname. read_field >>= check_credentials s uname) c c₁ u h in
    let (passwd, c₃, second, checked) =
      >>=-ok read_field (check_credentials s uname) c₂ c₁ u rest in
    let (is_user, is_password, input) = check_credentials-ok s uname passwd u c₃ c₁ checked in
    ground (
      arith,
      read_field-ok uname c c₂ first,
      read_field-ok passwd c₂ c₃ second,
      is_user,
      is_password,
      input,
    )

user_pass-ok :
    (s : Server) (u : Unit {0}) (c c₁ : Conn)
    → user_pass s c ≡ (ok u, c₁)
    → c.input ≡ credentials s c₁.input
unfolding user_pass check_auth_version
user_pass-ok s u c c₁ h =
    let (ver, c₂, read, rest) = >>=-ok read_byte (check_auth_version s) c c₁ u h in
    elim (Bool-cases (ver == 1)) [
      | inl e ↦
          ground (
            arith,
            read_byte-ok ver c c₂ read,
            rest,
            e,
            ==_iff ver 1,
            read_credentials-ok s u c₂ c₁,
          )
      | inr e ↦ ground (arith, rest, e)
    ]

negotiate_user_pass-ok :
    (s : Server) (methods : List ℕ) (u : Unit {0}) (c c₁ : Conn)
    → negotiate_user_pass s methods c ≡ (ok u, c₁)
    → (any (λ m. m == auth_user_pass) methods ≡ true) × (c.input ≡ credentials s c₁.input)
unfolding negotiate_user_pass try_write
negotiate_user_pass-ok s methods u c c₁ h =
    elim (Bool-cases (any (λ m. m == auth_user_pass) methods)) [
      | inl offered ↦
          let chosen = socks5_version ∷ auth_user_pass ∷ [] in
          let h₂ : (write chosen >>= λ _. user_pass s) c ≡ (ok u, c₁) = rw offered at h in
          let (v, c₂, written, rest) = >>=-ok (write chosen) (λ _. user_pass s) c c₁ u h₂ in
          (offered, write-ok chosen v c c₂ written ∙ user_pass-ok s u c₂ c₁ rest)
      | inr other ↦ ground (arith, h, other)
    ]

greeting-ok :
    (s : Server) (buf : List ℕ) (u : Unit {0}) (c c₁ : Conn)
    → requires_auth s ≡ true
    → greeting s buf c ≡ (ok u, c₁)
    → (methods : List ℕ) × (buf ≡ socks5_version ∷ length methods ∷ [])
      × (any (λ m. m == auth_user_pass) methods ≡ true)
      × (c.input ≡ methods ++ (credentials s c₁.input))
unfolding greeting choose_method
greeting-ok s [] u c c₁ asks h = ground arith
greeting-ok s (ver ∷ []) u c c₁ asks h = ground arith
greeting-ok s (ver ∷ n ∷ x ∷ xs) u c c₁ asks h = ground arith
greeting-ok s (ver ∷ n ∷ []) u c c₁ asks h = elim (Bool-cases (ver == socks5_version)) [
  | inl five ↦
      let h₂ : (read_full n >>= choose_method s) c ≡ (ok u, c₁) = rw five at h in
      let (methods, c₂, read, rest) = >>=-ok (read_full n) (choose_method s) c c₁ u h₂ in
      let (input, counted) = read_full-ok n methods c c₂ read in
      let h₃ : negotiate_user_pass s methods c₂ ≡ (ok u, c₁) = rw asks at rest in
      let (offered, input₂) = negotiate_user_pass-ok s methods u c₂ c₁ h₃ in
      (
        methods,
        ground (arith, five, ==_iff ver socks5_version, counted),
        offered,
        ground (arith, input, input₂),
      )
  | inr other ↦ ground (arith, h, other)
]

-- a negotiation that succeeds with a server that asks for credentials has been sent them
pub negotiate-ok :
    (s : Server) (u : Unit {0}) (c c₁ : Conn)
    → requires_auth s ≡ true
    → negotiate s c ≡ (ok u, c₁)
    → (methods : List ℕ) × (any (λ m. m == auth_user_pass) methods ≡ true)
      × (c.input ≡ hello methods (credentials s c₁.input))
unfolding negotiate
negotiate-ok s u c c₁ asks h =
    let (buf, c₂, read, rest) = >>=-ok (read_full 2) (greeting s) c c₁ u h in
    let (methods, is_buf, offered, input) = greeting-ok s buf u c₂ c₁ asks rest in
    (methods, offered, ground (arith, read_full-ok 2 buf c c₂ read, is_buf, input))
