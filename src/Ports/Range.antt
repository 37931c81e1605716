-- ===== src/Ports/Range.antt =====
-- What a resolved list of ports holds.
use kubeport.Prelude.{
  String, ◌≡◌, refl, ap, Bool, true, false, ◌&&◌, ◌||◌, not, List, [], ◌∷◌, map, any, All, arith,
  if◌then◌else◌, Bool-cases, inl, inr, ◌≢◌, ◌∙◌,
}
use kubeport.Prelude.Int.{ℤ}
use kubeport.Prelude.Result.{ok, ◌>>=◌, Result-cases, ok_injective, >>=-eq-ok}
use kubeport.Prelude.GoLib.{GoLib}
use kubeport.Config.{ServiceConfig, target}
use kubeport.Config.Validate.Service.{InRange}
use kubeport.Manager.Expand.{ResolvedPort}
use kubeport.Ports.{
  KubePort, selects, excluded, resolve_each, some_resolved, local_port_of, selected_ports,
  resolve_service_ports, resolve_pod_ports,
}

-- the ports that pass the tests
abbrev pub kept : (KubePort → Bool) → List KubePort → List KubePort
kept keep [] = []
kept keep (p ∷ rest) = if keep p then p ∷ kept keep rest else kept keep rest

abbrev pub as_resolved : (KubePort → ℤ) → KubePort → ResolvedPort
as_resolved local p = record { name = p.name; remote_port = p.port; local_port = local p }

-- A loop that succeeds resolves the kept ports in their order, each to its local port, in range.
resolve_each_ok :
    (keep : KubePort → Bool) (local : KubePort → ℤ) (ps : List KubePort) (rs : List ResolvedPort)
    → resolve_each keep local ps ≡ ok rs
    → (rs ≡ map (as_resolved local) (kept keep ps)) × All (λ r. InRange r.local_port) rs
unfolding resolve_each
resolve_each_ok keep local [] rs h = let e : [] ≡ rs = ok_injective h in rw (← e) (refl, tt)
resolve_each_ok keep local (p ∷ rest) rs h = elim (Bool-cases (keep p)) [
  | inl k ↦ elim (Result-cases (resolve_each keep local rest)) [
    | inl (x, e) ↦ ground (arith, k, e)
    | inr (more, e) ↦ ground (arith, k, e, resolve_each_ok keep local rest more e)
  ]
  | inr k ↦ ground (arith, k, resolve_each_ok keep local rest rs)
]

resolve_each_kept :
    (keep : KubePort → Bool) (local : KubePort → ℤ) (P : ResolvedPort → Type 0)
    → ((p : KubePort) → keep p ≡ true → P (as_resolved local p))
    → (ps : List KubePort) → All P (map (as_resolved local) (kept keep ps))
resolve_each_kept keep local P each [] = tt
resolve_each_kept keep local P each (p ∷ rest) = elim (Bool-cases (keep p)) [
  | inl k ↦ rw k (each p k, resolve_each_kept keep local P each rest)
  | inr k ↦ rw k (resolve_each_kept keep local P each rest)
]

some_resolved_ok :
    (target : String) (rs rs' : List ResolvedPort)
    → some_resolved target rs ≡ ok rs'
    → (rs' ≡ rs) × (rs ≢ [])
unfolding some_resolved
some_resolved_ok target [] rs' h = cc
some_resolved_ok target (r ∷ rs) rs' h = ground arith

-- What a caller gets: at least one port, none of them excluded, each with a local port in range.
pub record IsResolved (s : ServiceConfig) (rs : List ResolvedPort) : Type 0 where
  pub some_port : rs ≢ []
  pub in_range : All (λ r. InRange r.local_port) rs
  pub not_excluded : All (λ r. excluded s r.name ≡ false) rs

-- the last two steps of both resolutions
IsResolved-tail :
    (s : ServiceConfig) (keep : KubePort → Bool) (target : String) (ps : List KubePort)
    (rs : List ResolvedPort)
    → ((p : KubePort) → keep p ≡ true → excluded s p.name ≡ false)
    → (resolve_each keep (local_port_of s) ps >>= some_resolved target) ≡ ok rs
    → IsResolved s rs × (rs ≡ map (as_resolved (local_port_of s)) (kept keep ps))
IsResolved-tail s keep target ps rs keeps h =
    let (more, e, f) =
      >>=-eq-ok (resolve_each keep (local_port_of s) ps) (some_resolved target) h in
    let (same, ne) = some_resolved_ok target more rs f in
    let (eq, range) = resolve_each_ok keep (local_port_of s) ps more e in
    (
      record {
        some_port = rw same ne;
        in_range = rw same range;
        not_excluded =
            rw (same, eq)
              (resolve_each_kept keep (local_port_of s) (λ r. excluded s r.name ≡ false) keeps ps);
      },
      same ∙ eq,
    )

abbrev pub service_keep : ServiceConfig → KubePort → Bool
service_keep s p = not (excluded s p.name)

service_keep_lem :
    (s : ServiceConfig) (p : KubePort) → service_keep s p ≡ true → excluded s p.name ≡ false
service_keep_lem s p h = ground arith

abbrev pub pod_keep : ServiceConfig → KubePort → Bool
pod_keep s p =
    not (excluded s p.name) && (s.ports.all || any (λ sel. selects sel p) s.ports.selectors)

pod_keep_lem : (s : ServiceConfig) (p : KubePort) → pod_keep s p ≡ true → excluded s p.name ≡ false
pod_keep_lem s p h = ground arith

module _ (lib : GoLib) where
  selected_all :
      (s : ServiceConfig) (spec ports : List KubePort)
      → s.ports.all ≡ true
      → selected_ports lib s spec ≡ ok ports
      → ports ≡ spec
  unfolding selected_ports
  selected_all s spec ports a e = ground (arith, a)

  -- When the ports of a service resolve, there is at least one, none is excluded and each local port is in 0 to 65535; with `ports: all` they are the service's ports that are not excluded, in the service's order.
  pub resolve_service_ports-IsResolved :
      (s : ServiceConfig) (spec : List KubePort) (rs : List ResolvedPort)
      → resolve_service_ports lib s spec ≡ ok rs
      → IsResolved s rs
        × (s.ports.all ≡ true
            → rs ≡ map (as_resolved (local_port_of s)) (kept (service_keep s) spec))
  unfolding resolve_service_ports
  resolve_service_ports-IsResolved s spec rs h =
      let (ports, e, f) = >>=-eq-ok (selected_ports lib s spec) _ h in
      let t = IsResolved-tail s (service_keep s) (target s) ports rs (service_keep_lem s) f in
      (
        t.0,
        λ a.
            t.1
            ∙ ap (λ l. map (as_resolved (local_port_of s)) (kept (service_keep s) l))
                (selected_all s spec ports a e),
      )

-- When the ports of a pod resolve, there is at least one, none is excluded and each local port is in 0 to 65535; they are the container ports that are not excluded and that `ports: all` or a selector names, in their order.
pub resolve_pod_ports-IsResolved :
    (s : ServiceConfig) (spec : List KubePort) (rs : List ResolvedPort)
    → resolve_pod_ports s spec ≡ ok rs
    → IsResolved s rs × (rs ≡ map (as_resolved (local_port_of s)) (kept (pod_keep s) spec))
unfolding resolve_pod_ports
resolve_pod_ports-IsResolved s spec rs h =
    IsResolved-tail s (pod_keep s) (target s) spec rs (pod_keep_lem s) h
