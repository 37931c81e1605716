-- ===== src/HttpProxy/Login.antt =====
-- Which requests the HTTP proxy lets pass.
use Prim.Native.String.{◌++◌ as ◌++ₛ◌}
use kubeport.Prelude.{
  ℕ, ◌≡◌, refl, sym, ap, ◌∙◌, ◌↔◌, String, Bool, true, false, Option, none, some, List, [], ◌∷◌,
  ◌++◌, any, ◌==◌, arith, Option-cases, inl, inr, str_eq_iff, Bool-cases,
}
use kubeport.Prelude.GoLib.{cut_prefix}
use kubeport.Prelude.Prefix.{cut_prefix-append, cut_prefix-some}
use kubeport.Config.{is_empty}
use kubeport.Socks.Stream.{equal_bytes_iff}
use kubeport.HttpProxy.{HttpProxyServer, Request, get_header, cut, are_credentials, check_auth}

-- the byte ":" is in the list
abbrev pub has_colon : List ℕ → Bool
has_colon bytes = any (λ b. b == 58) bytes

cut-some :
    (bytes before after : List ℕ)
    → cut 58 bytes ≡ some (before, after)
    → (bytes ≡ before ++ 58 ∷ after) × (has_colon before ≡ false)
unfolding cut
cut-some [] before after found = cc
cut-some (b ∷ rest) [] after found = ground (arith, found)
cut-some (b ∷ rest) (c ∷ before) after found = ground (arith, found, cut-some rest before after)

cut-append :
    (before after : List ℕ)
    → has_colon before ≡ false
    → cut 58 (before ++ 58 ∷ after) ≡ some (before, after)
unfolding cut
cut-append [] after free = refl
cut-append (b ∷ before) after free = ground (arith, cut-append before after)

are_credentials_iff :
    (s : HttpProxyServer) (decoded : List ℕ)
    → (are_credentials s decoded ≡ true)
      ↔ ((decoded ≡ s.username ++ 58 ∷ s.password) × (has_colon s.username ≡ false))
unfolding are_credentials
are_credentials_iff s decoded = (
  (λ accepted. elim (Option-cases (cut 58 decoded)) [
    | inl missing ↦ absurd (ground (arith, accepted, missing))
    | inr ((user, pass), found) ↦
        let (joined, free) = cut-some decoded user pass found in
        let same : (user ≡ s.username) × (pass ≡ s.password) = ground (
          arith,
          accepted,
          found,
          equal_bytes_iff user s.username,
          equal_bytes_iff pass s.password,
        ) in
        ground (arith, joined, free, same)
  ]),
  (λ (joined, free). ground (
    arith,
    ap (cut 58) joined ∙ cut-append s.username s.password free,
    equal_bytes_iff s.username s.username,
    equal_bytes_iff s.password s.password,
  )),
)

-- a text with that prefix is not empty
cut-present :
    (auth encoded : String) → cut_prefix auth "Basic " ≡ some encoded → is_empty auth ≡ false
unfolding cut_prefix
cut-present auth encoded cuts = elim (Bool-cases (is_empty auth)) [
  | inl empty ↦
      let nothing : cut_prefix "" "Basic " ≡ none = refl in
      let same : auth ≡ "" = (str_eq_iff auth "").0 empty in
      let cut_here : some encoded ≡ none =
        sym cuts ∙ ap (λ a. cut_prefix a "Basic ") same ∙ nothing in
      absurd cc
  | inr filled ↦ filled
]

-- A request passes exactly if its Proxy-Authorization header is "Basic " and the encoding of the
-- server's username, a colon and its password, and the username has no colon.
pub check_auth_iff :
    (decode : String → Option (List ℕ)) (s : HttpProxyServer) (r : Request)
    → (check_auth decode s r ≡ true) ↔ (
        (encoded : String) × (get_header "Proxy-Authorization" r ≡ "Basic " ++ₛ encoded)
        × (decode encoded ≡ some (s.username ++ 58 ∷ s.password))
        × (has_colon s.username ≡ false))
unfolding check_auth
check_auth_iff decode s r =
    let auth : String = get_header "Proxy-Authorization" r in
    (
      (λ passes. elim (Option-cases (cut_prefix auth "Basic ")) [
        | inl other ↦ absurd (ground (arith, passes, other))
        | inr (encoded, basic) ↦ elim (Option-cases (decode encoded)) [
          | inl malformed ↦ absurd (ground (arith, passes, basic, malformed))
          | inr (decoded, decodes) ↦
              let accepted : are_credentials s decoded ≡ true =
                ground (arith, passes, basic, decodes) in
              let (joined, free) = (are_credentials_iff s decoded).0 accepted in
              (encoded, cut_prefix-some auth "Basic " encoded basic, decodes ∙ ap some joined, free)
        ]
      ]),
      (λ (encoded, basic, decodes, free).
          let cuts : cut_prefix auth "Basic " ≡ some encoded =
            ap (λ a. cut_prefix a "Basic ") basic ∙ cut_prefix-append "Basic " encoded in
          let accepted : are_credentials s (s.username ++ 58 ∷ s.password) ≡ true =
            (are_credentials_iff s (s.username ++ 58 ∷ s.password)).1 (refl, free) in
          let present : is_empty auth ≡ false = cut-present auth encoded cuts in
          ground (arith, cuts, decodes, accepted, present)),
    )
