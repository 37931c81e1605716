-- ===== src/GrpcAuth/Calls.antt =====
-- A client and a server of the daemon's API, each with its key.
use Prim.Native.String.{◌++◌ as ◌++ₛ◌}
use kubeport.Prelude.{
  ◌≡◌, ◌≢◌, refl, ap, ◌∙◌, String, Option, none, some, List, [], ◌∷◌, ◌++◌, ◌⊎◌, inl, inr, str_eq,
  str_eq_iff, if◌then◌else◌, Option-cases, arith,
}
use kubeport.Prelude.GoLib.{cut_prefix}
use kubeport.Prelude.Prefix.{cut_prefix-append, cut_prefix-some}
use kubeport.Prelude.Result.{Result, err, wrap}
use kubeport.GrpcAuth.{
  Denied, missing_metadata, missing_authorization, unauthenticated, handler_error, invalid_api_key,
  Metadata, check_key, server_interceptor, client_interceptor,
}

abbrev first : List String → Option String
first [] = none
first (value ∷ _) = some value

-- the first value of the authorization header
abbrev pub authorization : Metadata → Option String
authorization none = none
authorization (some get) = first (get "authorization")

check_key-same :
    (key : String) (values : List String) → check_key key (("Bearer " ++ₛ key) ∷ values) ≡ none
unfolding check_key
check_key-same key values = ground (arith, cut_prefix-append "Bearer " key, str_eq_iff key key)

check_key-none :
    (key value : String) (values : List String)
    → check_key key (value ∷ values) ≡ none
    → value ≡ "Bearer " ++ₛ key
unfolding check_key
check_key-none key value values passed = elim (Option-cases (cut_prefix value "Bearer ")) [
  | inl missing ↦ absurd (ground (arith, missing, passed))
  | inr (token, cut) ↦
      let same : token ≡ key = ground (arith, cut, passed, str_eq_iff token key) in
      cut_prefix-some value "Bearer " token cut ∙ ap (λ t. "Bearer " ++ₛ t) same
]

check_key-cases :
    (key : String) (values : List String)
    → ((first values ≡ some ("Bearer " ++ₛ key)) × (check_key key values ≡ none))
      ⊎ ((first values ≢ some ("Bearer " ++ₛ key))
          × ((denied : Denied) × (check_key key values ≡ some denied)))
unfolding check_key
check_key-cases key [] = inr ((λ h. cc), (missing_authorization, refl))
check_key-cases key (value ∷ values) = elim (Option-cases (check_key key (value ∷ values))) [
  | inl passed ↦ inl (ap some (check_key-none key value values passed), passed)
  | inr (denied, refused) ↦ inr (
    (λ h.
        let same : value ≡ "Bearer " ++ₛ key = cc in
        let passed : check_key key (value ∷ values) ≡ none =
          ap (λ v. check_key key (v ∷ values)) same ∙ check_key-same key values in
        cc),
    (denied, refused),
  )
]

-- A call is handled if the first value of its authorization header is "Bearer " and the key, and
-- is refused otherwise.
pub handled-bearer :
    {E A : Type 0} (key : String) (md : Metadata) (handled : Result E A)
    → ((authorization md ≡ some ("Bearer " ++ₛ key))
        × (server_interceptor key md handled ≡ wrap handler_error handled))
      ⊎ ((authorization md ≢ some ("Bearer " ++ₛ key))
          × ((denied : Denied) × (server_interceptor key md handled
                ≡ err (unauthenticated denied))))
unfolding server_interceptor
handled-bearer key none handled = inr ((λ h. cc), (missing_metadata, refl))
handled-bearer key (some get) handled = elim (check_key-cases key (get "authorization")) [
  | inl (same, passed) ↦ inl (same, ground (arith, passed))
  | inr (other, (denied, refused)) ↦ inr (other, (denied, ground (arith, refused)))
]

-- A call of a client with its own key, of which gRPC delivers the values of a header in the order
-- in which they were appended, and which had no authorization header before, is handled if the
-- server has the same key and is refused otherwise.
pub call-same_key :
    {Ctx E A : Type 0} (append : Ctx → String → String → Ctx) (deliver : Ctx → String → List String)
    (client_key server_key : String) (ctx : Ctx) (handled : Result E A)
    → ((c : Ctx) (name value : String)
        → deliver (append c name value) name ≡ deliver c name ++ value ∷ [])
    → deliver ctx "authorization" ≡ []
    → server_interceptor server_key
        (some (deliver (client_interceptor append client_key ctx)))
        handled
      ≡ (if str_eq client_key server_key
          then wrap handler_error handled
          else err (unauthenticated invalid_api_key))
unfolding server_interceptor check_key client_interceptor
call-same_key append deliver client_key server_key ctx handled delivers fresh =
    let arrived : deliver (append ctx "authorization" ("Bearer " ++ₛ client_key)) "authorization"
        ≡ ("Bearer " ++ₛ client_key) ∷ [] =
      delivers ctx "authorization" ("Bearer " ++ₛ client_key)
      ∙ ap (λ vs. vs ++ ("Bearer " ++ₛ client_key) ∷ []) fresh in
    ground (arith, arrived, cut_prefix-append "Bearer " client_key)
