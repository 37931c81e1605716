-- ===== src/Config/Validate/Whole.antt =====
-- Config.Validate: the loop over the services with its map of claimed ports, and the whole check.
use kubeport.Prelude.{
  ℕ, suc, ◌≡◌, refl, ◌≢◌, ◌↔◌, String, true, none, List, [], ◌∷◌, arith, All, if◌then◌else◌,
}
use kubeport.Prelude.Int.{ℤ, eq_ℤ_iff}
use kubeport.Prelude.Result.{ok}
use kubeport.Prelude.GoLib.{GoLib}
use kubeport.Config.{ServiceConfig}
use kubeport.Config.Validate.{claimed_by, claims, check_services, validate_service}
use kubeport.Config.Validate.Service.{IsValidService, validate_service_iff}

-- Two services do not claim the same static local port.
abbrev pub Apart : ServiceConfig → ServiceConfig → Type 0
Apart s t = claims s ≡ true → claims t ≡ true → s.local_port ≢ t.local_port

abbrev pub AllApart : List ServiceConfig → Type 0
AllApart [] = Unit
AllApart (s ∷ rest) = All (Apart s) rest × AllApart rest

-- nobody in `seen` holds the port that `t` claims
abbrev Free : List (ℤ × String) → ServiceConfig → Type 0
Free seen t = claims t ≡ true → claimed_by t.local_port seen ≡ none

abbrev push : ServiceConfig → List (ℤ × String) → List (ℤ × String)
push s seen = if claims s then (s.local_port, s.name) ∷ seen else seen

Free-push :
    (seen : List (ℤ × String)) (s t : ServiceConfig)
    → Free (push s seen) t ↔ (Free seen t × Apart s t)
unfolding claimed_by
Free-push seen s t = ground (arith, eq_ℤ_iff s.local_port t.local_port)

All-Free-push :
    (seen : List (ℤ × String)) (s : ServiceConfig) (ts : List ServiceConfig)
    → All (Free (push s seen)) ts ↔ (All (Free seen) ts × All (Apart s) ts)
All-Free-push seen s [] = ground arith
All-Free-push seen s (t ∷ ts) =
    let ih = All-Free-push seen s ts in
    let h = Free-push seen s t in
    (
      λ a. (((h.0 a.0).0, (ih.0 a.1).0), ((h.0 a.0).1, (ih.0 a.1).1)),
      λ a. (h.1 (a.0.0, a.1.0), ih.1 (a.0.1, a.1.1)),
    )

All-Free-nil : (ts : List ServiceConfig) → All (Free []) ts
unfolding claimed_by
All-Free-nil [] = tt
All-Free-nil (t ∷ ts) = (λ _. refl, All-Free-nil ts)

module _ (lib : GoLib) where
  -- one round of the loop, with the rest of it a value
  check_services-cons :
      (i : ℕ) (seen : List (ℤ × String)) (s : ServiceConfig) (rest : List ServiceConfig)
      → (check_services lib i seen (s ∷ rest) ≡ ok tt) ↔ (
          (validate_service lib s ≡ ok tt)
          × Free seen s
          × (check_services lib (suc i) (push s seen) rest ≡ ok tt))
  unfolding check_services
  check_services-cons i seen s rest = ground arith

  check_services-Free :
      (i : ℕ) (seen : List (ℤ × String)) (ss : List ServiceConfig)
      → (check_services lib i seen ss ≡ ok tt)
        ↔ (All (IsValidService lib) ss × All (Free seen) ss × AllApart ss)
  unfolding check_services
  check_services-Free i seen [] = (λ _. (tt, tt, tt), λ _. refl)
  check_services-Free i seen (s ∷ rest) =
      let step = check_services-cons i seen s rest in
      let ih = check_services-Free (suc i) (push s seen) rest in
      let valid = validate_service_iff lib s in
      let free = All-Free-push seen s rest in
      (
        λ h.
            let (v, f, r) = step.0 h in
            let (vs, fs, apart) = ih.0 r in
            let g = free.0 fs in ((valid.0 v, vs), (f, g.0), (g.1, apart)),
        λ h. step.1 (valid.1 h.0.0, h.1.0, ih.1 (h.0.1, free.1 (h.1.1, h.2.0), h.2.1)),
      )

  -- The loop over the services accepts a list exactly if every service in it is valid and no two single-port services claim the same non-zero local port.
  pub check_services_iff :
      (ss : List ServiceConfig)
      → (check_services lib 0 [] ss ≡ ok tt) ↔ (All (IsValidService lib) ss × AllApart ss)
  check_services_iff ss =
      let h = check_services-Free 0 [] ss in
      (λ e. ((h.0 e).0, (h.0 e).2), λ v. h.1 (v.0, All-Free-nil ss, v.1))
