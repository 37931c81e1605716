-- ===== src/GrpcAuth.antt =====
-- pkg/grpcauth/interceptor.go: the API key of a call to the daemon. What gRPC keeps in a context is
-- an argument.
pub mod Calls
mod Tests
use Prim.Native.String.{◌++◌}
use kubeport.Prelude.{String, Option, none, some, List, [], ◌∷◌, str_eq, if◌then◌else◌}
use kubeport.Prelude.GoLib.{cut_prefix}
use kubeport.Prelude.Result.{Result, ok, err, wrap}

-- why a call is refused
pub data Denied : Type 0 where
  missing_metadata missing_authorization invalid_api_key : Denied

-- the error of a call: codes.Unauthenticated, or the handler's own
pub data CallError (E : Type 0) : Type 0 where
  unauthenticated : Denied → CallError E
  handler_error : E → CallError E

-- the values of each header of a call that has arrived; `none` is a call without metadata
abbrev pub Metadata : Type 0
Metadata = Option (String → List String)

-- ConstantTimeCompare is equality of texts
unfoldable pub check_key : String → List String → Option Denied
check_key key [] = some missing_authorization
check_key key (value ∷ _) = elim (cut_prefix value "Bearer ") [
  | none ↦ some invalid_api_key
  | some token ↦ if str_eq token key then none else some invalid_api_key
]

-- ServerInterceptor; the handler's result is what it gives when it is called
unfoldable pub server_interceptor {ℓ} :
    {E : Type 0} {A : Type ℓ} → String → Metadata → Result E A → Result (CallError E) A
server_interceptor key none handled = err (unauthenticated missing_metadata)
server_interceptor key (some get) handled = elim (check_key key (get "authorization")) [
  | some denied ↦ err (unauthenticated denied)
  | none ↦ wrap handler_error handled
]

-- ClientInterceptor, with metadata.AppendToOutgoingContext
unfoldable pub client_interceptor :
    {Ctx : Type 0} → (Ctx → String → String → Ctx) → String → Ctx → Ctx
client_interceptor append key ctx = append ctx "authorization" ("Bearer " ++ key)
