-- ===== src/Socks.antt =====
-- pkg/proxy/socks.go: the SOCKS5 handshake of one client connection.
pub mod Stream
pub mod Steps
pub mod Client
pub mod Auth
pub mod Request
pub mod Accepts
mod Tests
use kubeport.Prelude.{
  ℕ, ◌+◌, ◌*◌, Bool, true, false, ◌&&◌, ◌||◌, not, List, [], ◌∷◌, ◌++◌, any, ◌==◌, if◌then◌else◌,
}
use kubeport.Socks.Stream.{
  M, Conn, SocksError, Outcome, ok, err, bad_version, no_acceptable_method, bad_auth_version,
  auth_failed, bad_command, bad_address_type, write_failed, short_read, pure, raise, read_full,
  write, try_write, equal_bytes, ◌>>=◌, ◌>>◌,
}

-- constants of the protocol
abbrev pub socks5_version : ℕ
socks5_version = 5

abbrev pub auth_none : ℕ
auth_none = 0

abbrev pub auth_user_pass : ℕ
auth_user_pass = 2

abbrev pub auth_no_acceptable : ℕ
auth_no_acceptable = 0xff

abbrev pub cmd_connect : ℕ
cmd_connect = 1

abbrev pub reply_success : ℕ
reply_success = 0

abbrev pub reply_general_failure : ℕ
reply_general_failure = 1

abbrev pub reply_command_not_supported : ℕ
reply_command_not_supported = 7

abbrev pub reply_addr_not_supported : ℕ
reply_addr_not_supported = 8

-- what the server is configured with, as bytes
pub record Server : Type 0 where
  pub username : List ℕ
  pub password : List ℕ

abbrev filled : List ℕ → Bool
filled [] = false
filled (x ∷ xs) = true

unfoldable pub requires_auth : Server → Bool
requires_auth s = filled s.username || filled s.password

-- the byte of a buffer of one byte; a longer or shorter buffer does not occur
abbrev pub the_byte : List ℕ → M ℕ
the_byte [] = raise short_read
the_byte (b ∷ _) = pure b

unfoldable pub read_byte : M ℕ
read_byte = do bs ← read_full 1; the_byte bs

-- ULEN | UNAME, or PLEN | PASSWD
unfoldable pub read_field : M (List ℕ)
unfolding read_byte
read_field = do n ← read_byte; read_full n

unfoldable pub check_credentials : Server → List ℕ → List ℕ → M (Unit {0})
check_credentials s uname passwd =
    if not (equal_bytes uname s.username) || not (equal_bytes passwd s.password)
    then (do try_write (1 ∷ 1 ∷ []); raise auth_failed)
    else write (1 ∷ 0 ∷ [])

-- the username and the password, after the version byte
unfoldable pub read_credentials : Server → M (Unit {0})
read_credentials s = do uname ← read_field; passwd ← read_field; check_credentials s uname passwd

unfoldable pub check_auth_version : Server → ℕ → M (Unit {0})
check_auth_version s ver =
    if not (ver == 1) then raise (bad_auth_version ver) else read_credentials s

-- the sub-negotiation of RFC 1929, after the method has been selected
unfoldable pub user_pass : Server → M (Unit {0})
user_pass s = do ver ← read_byte; check_auth_version s ver

-- negotiateUserPass
unfoldable pub negotiate_user_pass : Server → List ℕ → M (Unit {0})
negotiate_user_pass s methods =
    if not (any (λ m. m == auth_user_pass) methods)
    then (do try_write (socks5_version ∷ auth_no_acceptable ∷ []); raise no_acceptable_method)
    else do write (socks5_version ∷ auth_user_pass ∷ []); user_pass s

-- the method of a server that asks for no credentials
unfoldable pub negotiate_none : List ℕ → M (Unit {0})
negotiate_none methods =
    if any (λ m. m == auth_none) methods
    then write (socks5_version ∷ auth_none ∷ [])
    else (do try_write (socks5_version ∷ auth_no_acceptable ∷ []); raise no_acceptable_method)

unfoldable pub choose_method : Server → List ℕ → M (Unit {0})
choose_method s methods =
    if requires_auth s then negotiate_user_pass s methods else negotiate_none methods

-- VER | NMETHODS, then the methods
unfoldable pub greeting : Server → List ℕ → M (Unit {0})
greeting s (ver ∷ n ∷ []) =
    if not (ver == socks5_version)
    then raise (bad_version ver)
    else do methods ← read_full n; choose_method s methods
greeting s _ = raise short_read

unfoldable pub negotiate : Server → M (Unit {0})
negotiate s = do buf ← read_full 2; greeting s buf

unfoldable pub send_reply : ℕ → M (Unit {0})
send_reply reply = try_write (socks5_version ∷ reply ∷ 0 ∷ 1 ∷ 0 ∷ 0 ∷ 0 ∷ 0 ∷ 0 ∷ 0 ∷ [])

-- the host of a request, before it is printed
pub data Host : Type 0 where
  ipv4 domain ipv6 : List ℕ → Host

unfoldable pub read_host : ℕ → M Host
read_host atyp =
    if atyp == 1
    then (do ip ← read_full 4; pure (ipv4 ip))
    else if atyp == 3
    then (do name ← read_field; pure (domain name))
    else if atyp == 4
    then (do ip ← read_full 16; pure (ipv6 ip))
    else (do send_reply reply_addr_not_supported; raise (bad_address_type atyp))

-- binary.BigEndian.Uint16
unfoldable pub big_endian : List ℕ → M ℕ
big_endian (hi ∷ lo ∷ []) = pure (hi * 256 + lo)
big_endian _ = raise short_read

unfoldable pub read_port : M ℕ
read_port = do buf ← read_full 2; big_endian buf

-- VER | CMD | RSV | ATYP, then the address
unfoldable pub request : List ℕ → M (Host × ℕ)
request (ver ∷ cmd ∷ _ ∷ atyp ∷ []) =
    if not (ver == socks5_version)
    then raise (bad_version ver)
    else if not (cmd == cmd_connect)
    then (do send_reply reply_command_not_supported; raise (bad_command cmd))
    else do host ← read_host atyp; port ← read_port; pure (host, port)
request _ = raise short_read

unfoldable pub read_request : M (Host × ℕ)
read_request = do buf ← read_full 4; request buf

-- how a connection ends: relayed to its target, or closed
pub data Served : Type 0 where
  relayed : Host × ℕ → Served
  closed : Served

unfoldable pub connect : (Host × ℕ → Bool) → Host × ℕ → M Served
connect dial addr =
    if dial addr
    then (do send_reply reply_success; pure (relayed addr))
    else (do send_reply reply_general_failure; pure closed)

-- the handshake and the dial of handleConn; `dial` says whether the target answers
unfoldable pub handshake : Server → (Host × ℕ → Bool) → M Served
handshake s dial = do negotiate s; addr ← read_request; connect dial addr

abbrev pub served : Outcome Served → Served
served (ok r) = r
served (err e) = closed

-- handleConn up to the relay: an error closes the connection
unfoldable pub handle_conn : Server → (Host × ℕ → Bool) → Conn → Served × Conn
handle_conn s dial c = let (r, c') = handshake s dial c in (served r, c')
