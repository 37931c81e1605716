-- ===== src/GrpcAuth/Tests.antt =====
-- Headers as lists of pairs; a client with the key of the daemon and one with another key.
use kubeport.Prelude.{
  ℕ, ◌≡◌, refl, String, some, List, [], ◌∷◌, ◌++◌, str_eq, str_eq_refl, if◌then◌else◌, arith,
}
use kubeport.Prelude.GoLib.{cut_prefix}
use kubeport.Prelude.Result.{Result, ok, err, wrap}
use kubeport.GrpcAuth.{
  unauthenticated, handler_error, invalid_api_key, Metadata, check_key, server_interceptor,
  client_interceptor,
}
use kubeport.GrpcAuth.Calls.{call-same_key}

abbrev Headers : Type 0
Headers = List (String × String)

abbrev values_of : Headers → String → List String
values_of [] name = []
values_of ((k, v) ∷ rest) name =
    let others = values_of rest name in if str_eq k name then v ∷ others else others

abbrev append : Headers → String → String → Headers
append headers name value = headers ++ (name, value) ∷ []

values_of-append :
    (headers : Headers) (name value : String)
    → values_of (append headers name value) name ≡ values_of headers name ++ value ∷ []
values_of-append [] name value = ground (arith, str_eq_refl name)
values_of-append ((k, v) ∷ rest) name value = ground (arith, values_of-append rest name value)

abbrev traced : Headers
traced = ("trace", "1") ∷ []

abbrev answer : Result String ℕ
answer = ok 7

call-same_key_example :
    server_interceptor "k2" (some (values_of (client_interceptor append "k1" traced))) answer ≡ (
      if str_eq "k1" "k2" then wrap handler_error answer else err (unauthenticated invalid_api_key))
call-same_key_example = call-same_key append values_of "k1" "k2" traced answer values_of-append refl

abbrev with_key : Metadata
with_key = some (values_of (("authorization", "Bearer k2") ∷ []))

passes : server_interceptor "k2" with_key answer ≡ ok 7
unfolding server_interceptor check_key cut_prefix
passes = refl
