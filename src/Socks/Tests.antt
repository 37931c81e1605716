-- ===== src/Socks/Tests.antt =====
-- The SOCKS5 server with a concrete client.
use kubeport.Prelude.{ℕ, ◌+◌, ◌*◌, ◌≡◌, refl, Bool, true, false, ◌&&◌, List, [], ◌∷◌, ◌==◌}
use kubeport.Socks.Stream.{equal_bytes}
use kubeport.Socks.Client.{IsScript, hello, credentials, connect_request}
use kubeport.Socks.Request.{relayed-authenticated}
use kubeport.Socks.Accepts.{sending, IsHost, handle_conn-accepts}
use kubeport.Socks.{Server, requires_auth, Host, domain, relayed, handle_conn}

-- the user "u" with the password "pw"
abbrev server : Server
server = record { username = 117 ∷ []; password = 112 ∷ 119 ∷ [] }

abbrev redis : Host
redis = domain (114 ∷ 100 ∷ [])

-- the target "rd" on port 6379 answers
abbrev dial : Host × ℕ → Bool
dial (domain name, port) = equal_bytes name (114 ∷ 100 ∷ []) && port == 6379
dial _ = false

abbrev bytes : List ℕ
bytes = hello (0 ∷ 2 ∷ []) (credentials server (connect_request 0 redis 24 235 (42 ∷ [])))

abbrev replies : List ℕ
replies = 5 ∷ 2 ∷ 1 ∷ 0 ∷ 5 ∷ 0 ∷ 0 ∷ 1 ∷ 0 ∷ 0 ∷ 0 ∷ 0 ∷ 0 ∷ 0 ∷ []

server-asks : requires_auth server ≡ true
unfolding requires_auth
server-asks = refl

rd-answers : dial (redis, 24 * 256 + 235) ≡ true
unfolding equal_bytes
rd-answers = refl

rd-IsHost : IsHost redis
unfolding IsHost
rd-IsHost = tt

handle_conn-accepts_example :
    handle_conn server dial (sending bytes []) ≡ (relayed (redis, 6379), sending (42 ∷ []) replies)
handle_conn-accepts_example =
    handle_conn-accepts server dial (0 ∷ 2 ∷ []) 0 redis 24 235 (42 ∷ []) server-asks refl rd-IsHost
      rd-answers

bytes-relayed :
    handle_conn server dial (sending bytes []) ≡ (relayed (redis, 6379), sending (42 ∷ []) replies)
bytes-relayed =
    handle_conn-accepts server dial (0 ∷ 2 ∷ []) 0 redis 24 235 (42 ∷ []) server-asks refl rd-IsHost
      rd-answers

relayed-authenticated_example :
    (dial (redis, 6379) ≡ true) × IsScript server redis 6379 bytes (42 ∷ [])
relayed-authenticated_example =
    relayed-authenticated server dial redis 6379 (sending bytes []) (sending (42 ∷ []) replies)
      server-asks bytes-relayed
