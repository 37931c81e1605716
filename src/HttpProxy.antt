-- ===== src/HttpProxy.antt =====
-- pkg/proxy/httpproxy.go: one connection of the HTTP proxy. Parsing and printing HTTP, base64 and
-- dialling are arguments, and so is what happens on the two connections.
pub mod Login
pub mod Forwarded
mod Tests
use text.Mathlib.Text.{find?}
use Prim.Native.String.{◌++◌ as ◌++ₛ◌}
use kubeport.Prelude.{
  ℕ, String, Bool, true, false, ◌&&◌, ◌||◌, not, Option, none, some, List, [], ◌∷◌, ◌++◌, ◌==◌,
  str_eq, if◌then◌else◌, is_some,
}
use kubeport.Prelude.GoLib.{cut_prefix}
use kubeport.Prelude.Table.{Table, lookup, delete}
use kubeport.Config.{is_empty}
use kubeport.Socks.Stream.{equal_bytes}

-- a header has one value under each canonical name
pub record Request : Type 0 where
  pub method : String
  pub host : String
  pub header : Table String
  pub close : Bool
  pub request_uri : String
  pub url_request_uri : String

pub record Response : Type 0 where
  pub status_code : ℕ
  pub close : Bool

-- what is written to the client
pub data Reply : Type 0 where
  only_status : ℕ → Reply
  connection_established : Reply
  passed_on : Response → Reply

pub record HttpProxyServer : Type 0 where
  pub username : List ℕ
  pub password : List ℕ

-- what one connection has caused: the address dialled, the requests written to the target and the
-- replies written to the client, the failed writes included, and whether bytes are then relayed
pub record Traffic : Type 0 where
  pub dialled : Option String
  pub upstream : List Request
  pub replies : List Reply
  pub is_tunnel : Bool

abbrev pub quiet : Traffic
quiet = record { dialled = none; upstream = []; replies = []; is_tunnel = false }

abbrev pub reply : Reply → Traffic → Traffic
reply r t = record t { replies = t.replies ++ r ∷ [] }

abbrev filled : List ℕ → Bool
filled [] = false
filled (b ∷ rest) = true

unfoldable pub requires_auth : HttpProxyServer → Bool
requires_auth s = filled s.username || filled s.password

-- req.Header.Get
unfoldable pub get_header : String → Request → String
get_header name r = elim (lookup name r.header) [ none ↦ "" | some value ↦ value ]

-- strings.Cut at a byte
unfoldable pub cut : ℕ → List ℕ → Option (List ℕ × List ℕ)
cut sep [] = none
cut sep (b ∷ rest) = elim (b == sep) [
  | true ↦ some ([], rest)
  | false ↦ elim (cut sep rest) [ none ↦ none | some (before, after) ↦ some (b ∷ before, after) ]
]

-- the decoded credentials, where a colon ends the username
unfoldable pub are_credentials : HttpProxyServer → List ℕ → Bool
are_credentials s decoded = elim (cut 58 decoded) [
  | none ↦ false
  | some (user, pass) ↦ equal_bytes user s.username && equal_bytes pass s.password
]

unfoldable pub check_auth : (String → Option (List ℕ)) → HttpProxyServer → Request → Bool
check_auth decode s r =
    let auth = get_header "Proxy-Authorization" r in
    if is_empty auth then false else elim (cut_prefix auth "Basic ") [
      | none ↦ false
      | some encoded ↦ elim (decode encoded) [
        | none ↦ false
        | some decoded ↦ are_credentials s decoded
      ]
    ]

-- the address of a plain request
unfoldable pub with_port : String → String
with_port host = if is_some (find? host ":") then host else host ++ₛ ":80"

-- the request without the headers for the proxy
unfoldable pub stripped : Request → Request
stripped r = record r {
  header = delete "Proxy-Connection" (delete "Proxy-Authorization" r.header);
  request_uri = r.url_request_uri;
}

-- one round of the stream: whether the request is written, the target's answer, whether the answer
-- is written to the client, and the client's next request
pub record Exchange : Type 0 where
  pub sent : Bool
  pub answer : Option Response
  pub delivered : Bool
  pub next : Option Request

-- the loop of handleHTTP, until it returns or nothing more has happened yet
unfoldable pub forward_each : String → Request → Traffic → List Exchange → Traffic
forward_each addr r t [] = t
forward_each addr r t (x ∷ rest) =
    let t₁ = record t { upstream = t.upstream ++ stripped r ∷ [] } in
    if not x.sent then t₁ else elim x.answer [
      | none ↦ t₁
      | some response ↦
          let t₂ = reply (passed_on response) t₁ in
          if not x.delivered || (r.close || response.close) then t₂ else elim x.next [
            | none ↦ t₂
            | some next ↦ elim (str_eq (with_port next.host) addr) [
              | false ↦ reply (only_status 400) t₂
              | true ↦ forward_each addr next t₂ rest
            ]
          ]
    ]

unfoldable pub handle_http : (String → Bool) → Request → List Exchange → Traffic
handle_http dials r exchanges =
    let addr = with_port r.host in
    let t = record quiet { dialled = some addr } in
    if not (dials addr) then reply (only_status 502) t else forward_each addr r t exchanges

unfoldable pub handle_connect : (String → Bool) → Request → Traffic
handle_connect dials r =
    let t = record quiet { dialled = some r.host } in
    if not (dials r.host)
    then reply (only_status 502) t
    else record (reply connection_established t) { is_tunnel = true }

-- handleConn, with the first request unless it is malformed
unfoldable pub handle_conn :
    (String → Option (List ℕ))
    → (String → Bool)
    → HttpProxyServer
    → Option Request
    → List Exchange
    → Traffic
handle_conn decode dials s none exchanges = quiet
handle_conn decode dials s (some r) exchanges =
    if requires_auth s && not (check_auth decode s r)
    then reply (only_status 407) quiet
    else if str_eq r.method "CONNECT"
    then handle_connect dials r
    else handle_http dials r exchanges
