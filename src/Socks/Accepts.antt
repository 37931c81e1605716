-- ===== src/Socks/Accepts.antt =====
-- The other direction: a client that sends the script is served.
use kubeport.Prelude.{
  ℕ, ◌+◌, ◌*◌, ◌≡◌, refl, sym, Bool, true, List, [], ◌∷◌, ◌++◌, any, length, ◌==◌,
}
use kubeport.Socks.Stream.{
  Conn, ok, read_full, split, split-append, write, try_write, equal_bytes_iff,
}
use kubeport.Socks.Client.{address, hello, credentials, connect_request}
use kubeport.Socks.{
  Server, requires_auth, read_byte, read_field, check_credentials, read_credentials,
  check_auth_version, user_pass, negotiate_user_pass, choose_method, greeting, negotiate,
  auth_user_pass, Host, ipv4, domain, ipv6, read_host, big_endian, read_port, request, read_request,
  send_reply, relayed, connect, handshake, handle_conn,
}

-- a connection that the client has sent `input` on and that can be written to
abbrev pub sending : List ℕ → List ℕ → Conn
sending input output = record { input = input; output = output; writable = true }

read_full-sent :
    (xs rest out : List ℕ)
    → read_full (length xs) (sending (xs ++ rest) out) ≡ (ok xs, sending rest out)
unfolding read_full
read_full-sent xs rest out = rw (split-append xs rest, read_full)

read_byte-sent :
    (b : ℕ) (rest out : List ℕ) → read_byte (sending (b ∷ rest) out) ≡ (ok b, sending rest out)
unfolding read_byte read_full split
read_byte-sent b rest out = refl

read_field-sent :
    (xs rest out : List ℕ)
    → read_field (sending (length xs ∷ xs ++ rest) out) ≡ (ok xs, sending rest out)
unfolding read_field
read_field-sent xs rest out =
    rw (read_byte-sent (length xs) (xs ++ rest) out) (read_full-sent xs rest out)

user_pass-sent :
    (s : Server) (rest out : List ℕ)
    → user_pass s (sending (credentials s rest) out) ≡ (ok tt, sending rest (out ++ (1 ∷ 0 ∷ [])))
unfolding user_pass check_auth_version read_credentials check_credentials write
user_pass-sent s rest out = rw (
  read_byte-sent 1 (length s.username ∷ s.username ++ (length s.password ∷ s.password ++ rest)) out,
  read_field-sent s.username (length s.password ∷ s.password ++ rest) out,
  read_field-sent s.password rest out,
  (equal_bytes_iff s.username s.username).1 refl,
  (equal_bytes_iff s.password s.password).1 refl,
)

choose_method-sent :
    (s : Server) (methods rest out : List ℕ)
    → requires_auth s ≡ true
    → any (λ m. m == auth_user_pass) methods ≡ true
    → choose_method s methods (sending (credentials s rest) out)
      ≡ (ok tt, sending rest ((out ++ (5 ∷ 2 ∷ [])) ++ (1 ∷ 0 ∷ [])))
unfolding choose_method negotiate_user_pass write
choose_method-sent s methods rest out asks offered =
    rw (asks, offered, user_pass-sent s rest (out ++ (5 ∷ 2 ∷ [])))

negotiate-sent :
    (s : Server) (methods rest out : List ℕ)
    → requires_auth s ≡ true
    → any (λ m. m == auth_user_pass) methods ≡ true
    → negotiate s (sending (hello methods (credentials s rest)) out)
      ≡ (ok tt, sending rest ((out ++ (5 ∷ 2 ∷ [])) ++ (1 ∷ 0 ∷ [])))
unfolding negotiate greeting
negotiate-sent s methods rest out asks offered = rw (
  read_full-sent (5 ∷ length methods ∷ []) (methods ++ credentials s rest) out,
  read_full-sent methods (credentials s rest) out,
  choose_method-sent s methods rest out asks offered,
)

-- an address of the length that its type has
unfoldable pub IsHost : Host → Type 0
IsHost (ipv4 ip) = length ip ≡ 4
IsHost (domain name) = Unit {0}
IsHost (ipv6 ip) = length ip ≡ 16

-- the type and the address as the server reads them
address_type : Host → ℕ
address_type (ipv4 ip) = 1
address_type (domain name) = 3
address_type (ipv6 ip) = 4

address_bytes : Host → List ℕ
address_bytes (ipv4 ip) = ip
address_bytes (domain name) = length name ∷ name
address_bytes (ipv6 ip) = ip

read_host-sent :
    (host : Host) (rest out : List ℕ)
    → IsHost host
    → read_host (address_type host) (sending (address_bytes host ++ rest) out)
      ≡ (ok host, sending rest out)
unfolding read_host address_type address_bytes IsHost
read_host-sent (ipv4 ip) rest out long = rw ((sym long), read_full-sent ip rest out)
read_host-sent (domain name) rest out long = rw (read_field-sent name rest out)
read_host-sent (ipv6 ip) rest out long = rw ((sym long), read_full-sent ip rest out)

address-split : (host : Host) → address host ≡ address_type host ∷ address_bytes host
unfolding address_type address_bytes
address-split (ipv4 ip) = refl
address-split (domain name) = refl
address-split (ipv6 ip) = refl

read_port-sent :
    (hi lo : ℕ) (rest out : List ℕ)
    → read_port (sending (hi ∷ lo ∷ rest) out) ≡ (ok (hi * 256 + lo), sending rest out)
unfolding read_port big_endian
read_port-sent hi lo rest out = rw (read_full-sent (hi ∷ lo ∷ []) rest out)

read_request-sent :
    (rsv : ℕ) (host : Host) (hi lo : ℕ) (rest out : List ℕ)
    → IsHost host
    → read_request (sending (connect_request rsv host hi lo rest) out)
      ≡ (ok (host, hi * 256 + lo), sending rest out)
unfolding read_request request
read_request-sent rsv host hi lo rest out long = rw (
  address-split host,
  read_full-sent (5 ∷ 1 ∷ rsv ∷ address_type host ∷ []) (address_bytes host ++ (hi ∷ lo ∷ rest))
      out,
  read_host-sent host (hi ∷ lo ∷ rest) out long,
  read_port-sent hi lo rest out,
)

connect-answers :
    (dial : Host × ℕ → Bool) (addr : Host × ℕ) (rest out : List ℕ)
    → dial addr ≡ true
    → connect dial addr (sending rest out)
      ≡ (ok (relayed addr), sending rest (out ++ (5 ∷ 0 ∷ 0 ∷ 1 ∷ 0 ∷ 0 ∷ 0 ∷ 0 ∷ 0 ∷ 0 ∷ [])))
unfolding connect send_reply try_write
connect-answers dial addr rest out answers = rw answers

-- A server with a username or a password serves every client that follows the protocol: when the
-- input is a greeting that offers the username and password method, the configured credentials
-- and a CONNECT request for a host of the length of its address type, and the target answers, the
-- connection is relayed to that host and port, the bytes after the request are left, and the
-- method selection, the success of the login and the success reply have been written in this
-- order.
pub handle_conn-accepts :
    (s : Server) (dial : Host × ℕ → Bool) (methods : List ℕ) (rsv : ℕ) (host : Host) (hi lo : ℕ)
    (rest : List ℕ)
    → requires_auth s ≡ true
    → any (λ m. m == auth_user_pass) methods ≡ true
    → IsHost host
    → dial (host, hi * 256 + lo) ≡ true
    → handle_conn s dial
        (sending (hello methods (credentials s (connect_request rsv host hi lo rest))) [])
      ≡ (
        relayed (host, hi * 256 + lo),
        sending rest (5 ∷ 2 ∷ 1 ∷ 0 ∷ 5 ∷ 0 ∷ 0 ∷ 1 ∷ 0 ∷ 0 ∷ 0 ∷ 0 ∷ 0 ∷ 0 ∷ []),
      )
unfolding handle_conn handshake
handle_conn-accepts s dial methods rsv host hi lo rest asks offered long answers = rw (
  negotiate-sent s methods (connect_request rsv host hi lo rest) [] asks offered,
  read_request-sent rsv host hi lo rest (5 ∷ 2 ∷ 1 ∷ 0 ∷ []) long,
  connect-answers dial (host, hi * 256 + lo) rest (5 ∷ 2 ∷ 1 ∷ 0 ∷ []) answers,
)
