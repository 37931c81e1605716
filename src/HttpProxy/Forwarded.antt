-- ===== src/HttpProxy/Forwarded.antt =====
-- What reaches the target of a connection of the HTTP proxy.
use kubeport.Prelude.{
  ◌≡◌, refl, ℕ, String, Bool, true, false, ◌&&◌, ◌||◌, not, Option, none, some, List, [], ◌∷◌, ◌++◌,
  all, ◌⊎◌, inl, inr, arith, str_eq, str_eq_refl, Bool-cases, Option-cases,
}
use Prim.Native.String.{◌++◌ as ◌++ₛ◌}
use kubeport.HttpProxy.Login.{check_auth_iff}
use kubeport.Prelude.Table.{has, delete, lookup-delete}
use kubeport.HttpProxy.{
  Request, Traffic, HttpProxyServer, Exchange, passed_on, quiet, requires_auth, check_auth,
  get_header, with_port, stripped, reply, forward_each, handle_http, handle_connect, handle_conn,
}

-- the address is the host, or the host with the port 80 behind it
abbrev pub is_for : String → String → Bool
is_for addr host = str_eq host addr || str_eq (host ++ₛ ":80") addr

-- a request that the target may see: without the headers for the proxy, for the address dialled
abbrev pub is_clean : String → Request → Bool
is_clean addr r =
    not (has "Proxy-Authorization" r.header)
    && (not (has "Proxy-Connection" r.header) && is_for addr r.host)

with_port-is_for :
    (addr host : String) → str_eq (with_port host) addr ≡ true → is_for addr host ≡ true
unfolding with_port
with_port-is_for addr host here = ground (arith, here)

stripped-is_clean :
    (addr : String) (r : Request)
    → str_eq (with_port r.host) addr ≡ true
    → is_clean addr (stripped r) ≡ true
unfolding stripped
stripped-is_clean addr r here = ground (
  arith,
  with_port-is_for addr r.host here,
  lookup-delete "Proxy-Connection" "Proxy-Authorization" (delete "Proxy-Authorization" r.header),
  lookup-delete "Proxy-Authorization" "Proxy-Authorization" r.header,
  lookup-delete "Proxy-Connection" "Proxy-Connection" (delete "Proxy-Authorization" r.header),
)

all-append :
    (p : Request → Bool) (rs : List Request) (r : Request)
    → all p (rs ++ r ∷ []) ≡ (all p rs && p r)
all-append p [] r = ground arith
all-append p (q ∷ qs) r = ground (arith, all-append p qs r)

forward_each-is_clean :
    (addr : String) (r : Request) (t : Traffic) (exchanges : List Exchange)
    → str_eq (with_port r.host) addr ≡ true
    → all (is_clean addr) t.upstream ≡ true
    → all (is_clean addr) (forward_each addr r t exchanges).upstream ≡ true
unfolding forward_each
forward_each-is_clean addr r t [] here clean = clean
forward_each-is_clean addr r t (x ∷ rest) here clean =
    let grown : all (is_clean addr) (t.upstream ++ stripped r ∷ []) ≡ true =
      ground (
        arith,
        all-append (is_clean addr) t.upstream (stripped r),
        stripped-is_clean addr r here,
      ) in
    elim (Option-cases x.answer) [
      | inl silent ↦ ground (arith, grown, silent)
      | inr (response, answered) ↦ elim (Option-cases x.next) [
        | inl over ↦ ground (arith, grown, answered, over)
        | inr (next, comes) ↦ ground (
          arith,
          grown,
          answered,
          comes,
          forward_each-is_clean addr next
              (reply (passed_on response) (record t { upstream = t.upstream ++ stripped r ∷ [] }))
              rest,
        )
      ]
    ]

forward_each-dialled :
    (addr : String) (r : Request) (t : Traffic) (exchanges : List Exchange)
    → (forward_each addr r t exchanges).dialled ≡ t.dialled
unfolding forward_each
forward_each-dialled addr r t [] = refl
forward_each-dialled addr r t (x ∷ rest) = elim (Option-cases x.answer) [
  | inl silent ↦ ground (arith, silent)
  | inr (response, answered) ↦ elim (Option-cases x.next) [
    | inl over ↦ ground (arith, answered, over)
    | inr (next, comes) ↦ ground (
      arith,
      answered,
      comes,
      forward_each-dialled addr next
          (reply (passed_on response) (record t { upstream = t.upstream ++ stripped r ∷ [] })) rest,
    )
  ]
]

handle_http-is_clean :
    (dials : String → Bool) (r : Request) (exchanges : List Exchange)
    → (all (is_clean (with_port r.host)) (handle_http dials r exchanges).upstream ≡ true)
      × ((handle_http dials r exchanges).dialled ≡ some (with_port r.host))
unfolding handle_http
handle_http-is_clean dials r exchanges =
    let t : Traffic = record quiet { dialled = some (with_port r.host) } in
    let clean =
      forward_each-is_clean (with_port r.host) r t exchanges (str_eq_refl (with_port r.host))
        refl in
    let dialled = forward_each-dialled (with_port r.host) r t exchanges in
    (ground (arith, clean), ground (arith, dialled))

-- what may be written to the target: nothing before it is dialled
abbrev pub AllClean : Option String → List Request → Type 0
AllClean none written = written ≡ []
AllClean (some addr) written = all (is_clean addr) written ≡ true

-- the request carries the username and the password of the server
abbrev pub HasLogin : (String → Option (List ℕ)) → HttpProxyServer → Request → Type 0
HasLogin decode s r =
    (encoded : String) × (get_header "Proxy-Authorization" r ≡ "Basic " ++ₛ encoded)
    × (decode encoded ≡ some (s.username ++ 58 ∷ s.password))

AllClean-http :
    (dials : String → Bool) (r : Request) (exchanges : List Exchange)
    → AllClean (handle_http dials r exchanges).dialled (handle_http dials r exchanges).upstream
AllClean-http dials r exchanges =
    let (clean, dialled) = handle_http-is_clean dials r exchanges in rw dialled clean

AllClean-connect :
    (dials : String → Bool) (r : Request)
    → AllClean (handle_connect dials r).dialled (handle_connect dials r).upstream
unfolding handle_connect
AllClean-connect dials r = elim (Bool-cases (dials r.host)) [
  | inl up ↦ rw (up, handle_connect) refl
  | inr down ↦ rw (down, handle_connect) refl
]

-- Every request that is written to the target of a connection, also a later one of the stream, has
-- the address that was dialled as its host, up to a port 80 behind it, and is without the headers
-- for the proxy; nothing is written before an address is dialled. On a server with a login an
-- address is dialled only if the first request carries the encoding of the server's username, a
-- colon and its password.
pub handle_conn-is_clean :
    (decode : String → Option (List ℕ)) (dials : String → Bool) (s : HttpProxyServer) (r : Request)
    (exchanges : List Exchange)
    → AllClean
        (handle_conn decode dials s (some r) exchanges).dialled
        (handle_conn decode dials s (some r) exchanges).upstream
      × (((handle_conn decode dials s (some r) exchanges).dialled ≡ none)
          ⊎ ((requires_auth s ≡ false) ⊎ HasLogin decode s r))
unfolding handle_conn
handle_conn-is_clean decode dials s r exchanges = elim (Bool-cases (requires_auth s)) [
  | inr free ↦ (sent (rw free refl), inr (inl free))
  | inl login ↦ elim (Bool-cases (check_auth decode s r)) [
    | inl passes ↦
        let (encoded, basic, decodes, _) = (check_auth_iff decode s r).0 passes in
        (sent (rw (login, passes) refl), inr (inr (encoded, basic, decodes)))
    | inr refused ↦
        (rw (login, refused, handle_conn) refl, inl (rw (login, refused, handle_conn) refl))
  ]
]
  where
    sent :
        (requires_auth s && not (check_auth decode s r)) ≡ false
        → AllClean
            (handle_conn decode dials s (some r) exchanges).dialled
            (handle_conn decode dials s (some r) exchanges).upstream
    sent passes = elim (Bool-cases (str_eq r.method "CONNECT")) [
      | inl tunnel ↦ rw (passes, tunnel, handle_conn) (AllClean-connect dials r)
      | inr plain ↦ rw (passes, plain, handle_conn) (AllClean-http dials r exchanges)
    ]
