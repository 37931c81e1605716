-- ===== src/HttpProxy/Tests.antt =====
-- A server with the user "u" and the password "p", of which "dTpw" encodes "u:p".
use kubeport.Prelude.{
  ℕ, ◌≡◌, refl, String, Bool, true, false, Option, none, some, List, [], ◌∷◌, ◌⊎◌, str_eq,
  if◌then◌else◌,
}
use kubeport.Prelude.GoLib.{cut_prefix}
use kubeport.Prelude.Table.{lookup, delete}
use kubeport.Socks.Stream.{equal_bytes}
use kubeport.HttpProxy.{
  Request, HttpProxyServer, Exchange, only_status, passed_on, get_header, requires_auth, check_auth,
  are_credentials, cut, with_port, stripped, forward_each, handle_http, handle_conn,
}
use kubeport.HttpProxy.Forwarded.{AllClean, HasLogin, handle_conn-is_clean}

abbrev decode : String → Option (List ℕ)
decode s = if str_eq s "dTpw" then some (117 ∷ 58 ∷ 112 ∷ []) else none

abbrev server : HttpProxyServer
server = record { username = 117 ∷ []; password = 112 ∷ [] }

abbrev dials : String → Bool
dials addr = str_eq addr "web:80"

abbrev get_web : Request
get_web = record {
  method = "GET";
  host = "web";
  header = ("Accept", "*/*") ∷ ("Proxy-Authorization", "Basic dTpw") ∷ [];
  close = false;
  request_uri = "http://web/";
  url_request_uri = "/";
}

-- the second request is for another host
abbrev exchanges : List Exchange
exchanges =
    record {
      sent = true;
      answer = some (record { status_code = 200; close = false });
      delivered = true;
      next = some (record get_web { host = "db" });
    }
    ∷ []

one-forwarded : handle_conn decode dials server (some get_web) exchanges ≡ record {
  dialled = some "web:80";
  upstream = record get_web { header = ("Accept", "*/*") ∷ []; request_uri = "/" } ∷ [];
  replies = passed_on (record { status_code = 200; close = false }) ∷ only_status 400 ∷ [];
  is_tunnel = false;
}
unfolding handle_conn handle_http forward_each with_port stripped requires_auth check_auth
    get_header are_credentials cut cut_prefix lookup delete equal_bytes
one-forwarded = refl

handle_conn-is_clean_example :
    AllClean
      (handle_conn decode dials server (some get_web) exchanges).dialled
      (handle_conn decode dials server (some get_web) exchanges).upstream
    × (((handle_conn decode dials server (some get_web) exchanges).dialled ≡ none)
        ⊎ ((requires_auth server ≡ false) ⊎ HasLogin decode server get_web))
handle_conn-is_clean_example = handle_conn-is_clean decode dials server get_web exchanges
