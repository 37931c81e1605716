-- ===== src/Socks/Client.antt =====
-- What a client sends, in the layouts of RFC 1928 and RFC 1929, each part before the bytes that
-- follow it.
use kubeport.Prelude.{ℕ, ◌+◌, ◌*◌, ◌≡◌, true, any, ◌==◌, List, ◌∷◌, ◌++◌, length}
use kubeport.Socks.{Server, Host, ipv4, domain, ipv6}

-- VER | NMETHODS | METHODS
abbrev pub hello : List ℕ → List ℕ → List ℕ
hello methods rest = 5 ∷ length methods ∷ methods ++ rest

-- VER | ULEN | UNAME | PLEN | PASSWD
abbrev pub credentials : Server → List ℕ → List ℕ
credentials s rest = 1 ∷ length s.username ∷ s.username ++ (length s.password ∷ s.password ++ rest)

-- ATYP and the address
abbrev pub address : Host → List ℕ
address (ipv4 ip) = 1 ∷ ip
address (domain name) = 3 ∷ length name ∷ name
address (ipv6 ip) = 4 ∷ ip

-- VER | CMD | RSV | ATYP | ADDR | PORT
abbrev pub connect_request : ℕ → Host → ℕ → ℕ → List ℕ → List ℕ
connect_request rsv host hi lo rest = 5 ∷ 1 ∷ rsv ∷ address host ++ (hi ∷ lo ∷ rest)

-- the bytes of a client that logs in to the server and asks for a host and a port, and then the rest
pub record IsScript (s : Server) (host : Host) (port : ℕ) (input rest : List ℕ) : Type 0 where
  pub methods : List ℕ
  pub rsv : ℕ
  pub hi : ℕ
  pub lo : ℕ
  pub offers : any (λ m. m == 2) methods ≡ true
  pub is_port : port ≡ hi * 256 + lo
  pub is_input : input ≡ hello methods (credentials s (connect_request rsv host hi lo rest))
