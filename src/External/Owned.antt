-- ===== src/External/Owned.antt =====
-- The services reported as external are exactly those that a remote forward owns, each name once.
use kubeport.Prelude.{
  ◌≡◌, refl, ap, ◌∙◌, String, Bool, ◌&&◌, ◌||◌, not, List, [], ◌∷◌, any, map, arith, str_eq,
  str_eq_refl, str_eq_iff, Bool-cases, inl, inr, is_some,
}
use kubeport.Prelude.Int.{ℤ, pos, ltb_ℤ, eq_ℤ}
use kubeport.Prelude.Table.{Table, empty, insert, has, lookup-insert, lookup-empty}
use kubeport.Config.{ServiceConfig, Config, is_empty}
use kubeport.Manager.{ExternalForward}
use kubeport.Manager.Order.{occurrences, tally}
use kubeport.External.{
  RemoteForward, remote_held, by_name, by_port, port_owner, as_external, owner_of, detect_each,
  detect_external_conflicts,
}

-- a remote forward has the service's name, or its positive local port is the service's static one
abbrev pub owns : ServiceConfig → RemoteForward → Bool
owns s fw =
    (not (is_empty fw.service_name) && str_eq fw.service_name s.name)
    || (not (eq_ℤ s.local_port (pos 0))
        && (ltb_ℤ (pos 0) (remote_held fw) && eq_ℤ (remote_held fw) s.local_port))

abbrev owns_name : String → RemoteForward → Bool
owns_name n fw = not (is_empty fw.service_name) && str_eq fw.service_name n

abbrev owns_port : ℤ → RemoteForward → Bool
owns_port p fw = ltb_ℤ (pos 0) (remote_held fw) && eq_ℤ (remote_held fw) p

has-by_name :
    (n : String) (t : Table RemoteForward) (remote : List RemoteForward)
    → has n (by_name t remote) ≡ (has n t || any (owns_name n) remote)
unfolding by_name
has-by_name n t [] = ground arith
has-by_name n t (fw ∷ rest) = elim (Bool-cases (is_empty fw.service_name)) [
  | inl e ↦ rw e (ground (arith, e, has-by_name n t rest))
  | inr e ↦ rw e (
      ground (
        arith,
        e,
        has-by_name n (insert fw.service_name fw t) rest,
        lookup-insert fw.service_name n fw t,
      ))
]

port_owner-by_port :
    (p : ℤ) (t : List (ℤ × RemoteForward)) (remote : List RemoteForward)
    → is_some (port_owner p (by_port t remote))
      ≡ (is_some (port_owner p t) || any (owns_port p) remote)
unfolding by_port port_owner
port_owner-by_port p t [] = ground arith
port_owner-by_port p t (fw ∷ rest) = elim (Bool-cases (ltb_ℤ (pos 0) (remote_held fw))) [
  | inl e ↦ rw e (ground (arith, e, port_owner-by_port p ((remote_held fw, fw) ∷ t) rest))
  | inr e ↦ rw e (ground (arith, e, port_owner-by_port p t rest))
]

any-owns :
    (s : ServiceConfig) (remote : List RemoteForward)
    → any (owns s) remote ≡ (
        any (owns_name s.name) remote
        || (not (eq_ℤ s.local_port (pos 0)) && any (owns_port s.local_port) remote))
any-owns s [] = ground arith
any-owns s (fw ∷ rest) = ground (arith, any-owns s rest)

owner-owned :
    (s : ServiceConfig) (remote : List RemoteForward)
    → is_some (owner_of (by_name empty remote) (by_port [] remote) s) ≡ any (owns s) remote
unfolding owner_of port_owner
owner-owned s remote = ground (
  arith,
  has-by_name s.name empty remote,
  lookup-empty {V = RemoteForward} s.name,
  port_owner-by_port s.local_port [] remote,
  any-owns s remote,
)

abbrev pub reported : List ExternalForward → List String
reported = map (λ e. e.service.name)

abbrev owned_as : Table RemoteForward → List (ℤ × RemoteForward) → String → ServiceConfig → Bool
owned_as names ports n s = str_eq s.name n && is_some (owner_of names ports s)

module _ (names : Table RemoteForward) (ports : List (ℤ × RemoteForward)) (n : String) where
  detect_each-reported :
      (seen : List String) (ss : List ServiceConfig)
      → occurrences n (reported (detect_each names ports seen ss))
        ≡ tally (not (any (str_eq n) seen) && any (owned_as names ports n) ss)
  unfolding detect_each as_external occurrences
  detect_each-reported seen [] = ground arith
  detect_each-reported seen (s ∷ rest) = elim (Bool-cases (str_eq s.name n)) [
    | inl q ↦
        let p : s.name ≡ n = (str_eq_iff s.name n).0 q in
        ground (
          arith,
          q,
          str_eq_refl n,
          p,
          ap (λ k. any (str_eq k) seen) p,
          ap (λ k. any (str_eq k) (k ∷ seen)) p,
          ap (λ k. str_eq n k) p,
          detect_each-reported seen rest,
          detect_each-reported (s.name ∷ seen) rest,
        )
    | inr q ↦ ground (
      arith,
      q,
      str_eq_iff n s.name,
      str_eq_iff s.name n,
      detect_each-reported seen rest,
      detect_each-reported (s.name ∷ seen) rest,
    )
  ]

any-owned_as :
    (n : String) (remote : List RemoteForward) (ss : List ServiceConfig)
    → any (owned_as (by_name empty remote) (by_port [] remote) n) ss
      ≡ any (λ s. str_eq s.name n && any (owns s) remote) ss
any-owned_as n remote [] = refl
any-owned_as n remote (s ∷ rest) = ground (arith, owner-owned s remote, any-owned_as n remote rest)

-- A name is reported as external once if some configured service of that name is owned by a remote forward, by its name or by its static local port, and not at all otherwise.
pub detect-reported :
    (cfg : Config) (remote : List RemoteForward) (n : String)
    → occurrences n (reported (detect_external_conflicts cfg remote))
      ≡ tally (any (λ s. str_eq s.name n && any (owns s) remote) cfg.services)
unfolding detect_external_conflicts
detect-reported cfg remote n =
    detect_each-reported _ _ n [] cfg.services ∙ ap tally (any-owned_as n remote cfg.services)
