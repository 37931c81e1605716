-- ===== src/Socks/Request.antt =====
-- The CONNECT request, and what a connection that reaches its target has sent.
use kubeport.Prelude.{
  ℕ, ◌+◌, ◌*◌, ◌≡◌, ◌∙◌, ap, inl, inr, Bool, true, List, [], ◌∷◌, ◌++◌, any, length, ◌==◌, ==_iff,
  arith, Bool-cases,
}
use kubeport.Socks.Stream.{M, Conn, Outcome, ok, err, pure, read_full, try_write, ◌>>=◌}
use kubeport.Socks.Client.{address, hello, credentials, connect_request, IsScript}
use kubeport.Socks.Steps.{>>=-ok, read_full-ok, read_field-ok}
use kubeport.Socks.Auth.{negotiate-ok}
use kubeport.Socks.{
  Server, requires_auth, negotiate, read_field, auth_user_pass, socks5_version, cmd_connect, Host,
  ipv4, domain, ipv6, read_host, big_endian, read_port, request, read_request, send_reply, Served,
  served, relayed, connect, handshake, handle_conn,
}

read_host-ok :
    (atyp : ℕ) (host : Host) (c c₁ : Conn)
    → read_host atyp c ≡ (ok host, c₁)
    → atyp ∷ c.input ≡ address host ++ c₁.input
unfolding read_host send_reply try_write
read_host-ok atyp host c c₁ h = elim (Bool-cases (atyp == 1)) [
  | inl is_v4 ↦
      let h₂ : (read_full 4 >>= λ ip. pure (ipv4 ip)) c ≡ (ok host, c₁) = rw is_v4 at h in
      let (ip, c₂, read, rest) = >>=-ok (read_full 4) (λ ip. pure (ipv4 ip)) c c₁ host h₂ in
      ground (arith, read_full-ok 4 ip c c₂ read, rest, is_v4, ==_iff atyp 1)
  | inr not_v4 ↦ elim (Bool-cases (atyp == 3)) [
    | inl is_name ↦
        let h₂ : (read_field >>= λ name. pure (domain name)) c ≡ (ok host, c₁) =
          rw (not_v4, is_name) at h in
        let (name, c₂, read, rest) = >>=-ok read_field (λ name. pure (domain name)) c c₁ host h₂ in
        ground (arith, read_field-ok name c c₂ read, rest, is_name, ==_iff atyp 3)
    | inr not_name ↦ elim (Bool-cases (atyp == 4)) [
      | inl is_v6 ↦
          let h₂ : (read_full 16 >>= λ ip. pure (ipv6 ip)) c ≡ (ok host, c₁) =
            rw (not_v4, not_name, is_v6) at h in
          let (ip, c₂, read, rest) = >>=-ok (read_full 16) (λ ip. pure (ipv6 ip)) c c₁ host h₂ in
          ground (arith, read_full-ok 16 ip c c₂ read, rest, is_v6, ==_iff atyp 4)
      | inr not_v6 ↦ ground (arith, h, not_v4, not_name, not_v6)
    ]
  ]
]

read_port-ok :
    (port : ℕ) (c c₁ : Conn)
    → read_port c ≡ (ok port, c₁)
    → (hi : ℕ) × (lo : ℕ) × (port ≡ hi * 256 + lo) × (c.input ≡ hi ∷ lo ∷ c₁.input)
unfolding read_port big_endian
read_port-ok port c c₁ h =
    let (buf, c₂, read, rest) = >>=-ok (read_full 2) big_endian c c₁ port h in
    two_bytes buf c₂ rest (read_full-ok 2 buf c c₂ read)
  where
    two_bytes :
        (buf : List ℕ) (c₂ : Conn)
        → big_endian buf c₂ ≡ (ok port, c₁)
        → (c.input ≡ buf ++ c₂.input) × (length buf ≡ 2)
        → (hi : ℕ) × (lo : ℕ) × (port ≡ hi * 256 + lo) × (c.input ≡ hi ∷ lo ∷ c₁.input)
    two_bytes [] c₂ rest (input, two) = cc
    two_bytes (x ∷ []) c₂ rest (input, two) = ground arith
    two_bytes (x ∷ y ∷ z ∷ zs) c₂ rest (input, two) = ground arith
    two_bytes (hi ∷ lo ∷ []) c₂ rest (input, two) =
        (hi, lo, ground (arith, rest), ground (arith, rest, input))

abbrev read_endpoint : ℕ → M (Host × ℕ)
read_endpoint atyp = read_host atyp >>= λ host. read_port >>= λ port. pure (host, port)

endpoint-ok :
    (atyp : ℕ) (host : Host) (port : ℕ) (c c₁ : Conn)
    → read_endpoint atyp c ≡ (ok (host, port), c₁)
    → (hi : ℕ) × (lo : ℕ) × (port ≡ hi * 256 + lo)
      × (atyp ∷ c.input ≡ address host ++ (hi ∷ lo ∷ c₁.input))
endpoint-ok atyp host port c c₁ h =
    let (name, c₂, named, rest) =
      >>=-ok (read_host atyp) (λ host. read_port >>= λ port. pure (host, port)) c c₁ (host, port)
        h in
    let (number, c₃, numbered, done) =
      >>=-ok read_port (λ port. pure (name, port)) c₂ c₁ (host, port) rest in
    finish name number c₂ c₃ done (read_host-ok atyp name c c₂ named)
      (read_port-ok number c₂ c₃ numbered)
  where
    finish :
        (name : Host) (number : ℕ) (c₂ c₃ : Conn)
        → pure {A = Host × ℕ} (name, number) c₃ ≡ (ok (host, port), c₁)
        → atyp ∷ c.input ≡ address name ++ c₂.input
        → (hi : ℕ) × (lo : ℕ) × (number ≡ hi * 256 + lo) × (c₂.input ≡ hi ∷ lo ∷ c₃.input)
        → (hi : ℕ) × (lo : ℕ) × (port ≡ hi * 256 + lo)
          × (atyp ∷ c.input ≡ address host ++ (hi ∷ lo ∷ c₁.input))
    finish name number c₂ c₃ done addressed (hi, lo, port_is, input) =
        (hi, lo, ground (arith, done, port_is), ground (arith, done, addressed, input))

request-ok :
    (buf : List ℕ) (host : Host) (port : ℕ) (c c₁ : Conn)
    → request buf c ≡ (ok (host, port), c₁)
    → length buf ≡ 4
    → (rsv : ℕ) × (hi : ℕ) × (lo : ℕ) × (port ≡ hi * 256 + lo)
      × (buf ++ c.input ≡ connect_request rsv host hi lo c₁.input)
unfolding request send_reply try_write
request-ok (ver ∷ cmd ∷ rsv ∷ atyp ∷ []) host port c c₁ h four =
    elim (Bool-cases (ver == socks5_version)) [
      | inl five ↦ elim (Bool-cases (cmd == cmd_connect)) [
        | inl is_connect ↦
            let h₂ : read_endpoint atyp c ≡ (ok (host, port), c₁) = rw (five, is_connect) at h in
            let (hi, lo, port_is, input) = endpoint-ok atyp host port c c₁ h₂ in
            (
              rsv,
              hi,
              lo,
              port_is,
              ground (
                arith,
                five,
                is_connect,
                input,
                ==_iff ver socks5_version,
                ==_iff cmd cmd_connect,
              ),
            )
        | inr other ↦ ground (arith, h, five, other)
      ]
      | inr other ↦ ground (arith, h, other)
    ]
request-ok [] host port c c₁ h four = ground arith
request-ok (a ∷ []) host port c c₁ h four = ground arith
request-ok (a ∷ b ∷ []) host port c c₁ h four = ground arith
request-ok (a ∷ b ∷ d ∷ []) host port c c₁ h four = ground arith
request-ok (a ∷ b ∷ d ∷ e ∷ x ∷ xs) host port c c₁ h four = ground arith

read_request-ok :
    (host : Host) (port : ℕ) (c c₁ : Conn)
    → read_request c ≡ (ok (host, port), c₁)
    → (rsv : ℕ) × (hi : ℕ) × (lo : ℕ) × (port ≡ hi * 256 + lo)
      × (c.input ≡ connect_request rsv host hi lo c₁.input)
unfolding read_request
read_request-ok host port c c₁ h =
    let (buf, c₂, read, rest) = >>=-ok (read_full 4) request c c₁ (host, port) h in
    let (input, four) = read_full-ok 4 buf c c₂ read in
    let (rsv, hi, lo, port_is, sent) = request-ok buf host port c₂ c₁ rest four in
    (rsv, hi, lo, port_is, input ∙ sent)

connect-ok :
    (dial : Host × ℕ → Bool) (addr target : Host × ℕ) (c c₁ : Conn)
    → connect dial addr c ≡ (ok (relayed target), c₁)
    → (addr ≡ target) × (dial target ≡ true) × (c.input ≡ c₁.input)
unfolding connect send_reply try_write
connect-ok dial addr target c c₁ h = elim (Bool-cases (dial addr)) [
  | inl answers ↦ elim (Bool-cases c.writable) [
    | inl open_ ↦ ground (arith, h, answers, open_)
    | inr broken ↦ ground (arith, h, answers, broken)
  ]
  | inr refused ↦ ground (arith, h, refused)
]

-- a negotiation and a request that both succeed, put together
script :
    (s : Server) (name host : Host) (number port : ℕ) (c c₂ c₃ c₁ : Conn) (methods : List ℕ)
    → any (λ m. m == auth_user_pass) methods ≡ true
    → c.input ≡ hello methods (credentials s c₂.input)
    → (rsv : ℕ) × (hi : ℕ) × (lo : ℕ) × (number ≡ hi * 256 + lo)
      × (c₂.input ≡ connect_request rsv name hi lo c₃.input)
    → ◌≡◌ {A = Host × ℕ} (name, number) (host, port)
    → c₃.input ≡ c₁.input
    → IsScript s host port c.input c₁.input
script s name host number port c c₂ c₃ c₁ methods offered input (rsv, hi, lo, port_is, input₂)
      target input₃ =
    record {
      methods = methods;
      rsv = rsv;
      hi = hi;
      lo = lo;
      offers = offered;
      is_port = ground (arith, target, port_is);
      is_input = ground (arith, input, input₂, input₃, target);
    }

handshake-ok :
    (s : Server) (dial : Host × ℕ → Bool) (host : Host) (port : ℕ) (c c₁ : Conn)
    → requires_auth s ≡ true
    → handshake s dial c ≡ (ok (relayed (host, port)), c₁)
    → (dial (host, port) ≡ true) × IsScript s host port c.input c₁.input
unfolding handshake
handshake-ok s dial host port c c₁ asks h =
    let (u, c₂, negotiated, rest) =
      >>=-ok (negotiate s) (λ _. read_request >>= connect dial) c c₁ (relayed (host, port)) h in
    let ((name, number), c₃, requested, connected) =
      >>=-ok read_request (connect dial) c₂ c₁ (relayed (host, port)) rest in
    let (methods, offered, input) = negotiate-ok s u c c₂ asks negotiated in
    let (target, answers, left) = connect-ok dial (name, number) (host, port) c₃ c₁ connected in
    let request = read_request-ok name number c₂ c₃ requested in
    (answers, script s name host number port c c₂ c₃ c₁ methods offered input request target left)

-- a connection is relayed only by a handshake that succeeds
handshake_relays :
    (r : Outcome Served) (target : Host × ℕ) → served r ≡ relayed target → r ≡ ok (relayed target)
handshake_relays (ok x) target h = ap ok h
handshake_relays (err e) target h = ground arith

-- A server with a username or a password relays a connection to a host and a port only if the
-- target answers and the client has sent, in this order and with nothing between, a greeting that
-- offers the username and password method, the configured username and password, and a CONNECT
-- request for that host and port; what it sent after that is left for the relay.
pub relayed-authenticated :
    (s : Server) (dial : Host × ℕ → Bool) (host : Host) (port : ℕ) (c c₁ : Conn)
    → requires_auth s ≡ true
    → handle_conn s dial c ≡ (relayed (host, port), c₁)
    → (dial (host, port) ≡ true) × IsScript s host port c.input c₁.input
unfolding handle_conn
relayed-authenticated s dial host port c c₁ asks h =
    let e = handshake_relays (handshake s dial c).0 (host, port) (ap (λ r. r.0) h) in
    handshake-ok s dial host port c c₁ asks (cc)
