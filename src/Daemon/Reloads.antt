-- ===== src/Daemon/Reloads.antt =====
-- A successful Reload request: what was loaded, and what the manager has become.
use kubeport.Prelude.{
  ℕ, ◌≡◌, ap, ◌∙◌, String, true, false, Option, none, some, arith, Option-cases, inl, inr,
}
use kubeport.Prelude.Int.{ℤ}
use kubeport.Prelude.Result.{Result, ok, Result-cases}
use kubeport.Prelude.Table.{lookup, has}
use kubeport.Prelude.GoLib.{GoLib}
use kubeport.Config.{Config}
use kubeport.Config.Error.{ConfigError}
use kubeport.Config.Validate.{validate_config}
use kubeport.Config.Validate.Accepted.{IsAccepted, validate_config-IsAccepted}
use kubeport.Config.Load.{load}
use kubeport.Manager.{PortForward}
use kubeport.Manager.Commands.{reload, refresh_external_forwards}
use kubeport.Manager.Commands.Stale.{NoChild}
use kubeport.Manager.Commands.Reload.{names_it, reload-drops, reload-keeps}
use kubeport.Daemon.{Server, Surroundings, decoded, serve_reload}

module _ (lib : GoLib) (around : Surroundings) (fuel : ℕ) (srv : Server) where
  -- the configuration that the request loads
  abbrev pub loaded : Option (Result ConfigError Config)
  loaded = load lib (decoded around.decode srv.disk) fuel around.environment srv.cfg.file_path

  reload_parts :
      {after : Server} {counts : ℤ × ℤ}
      → serve_reload lib around fuel srv ≡ some (after, ok counts)
      → (c : Config) × (loaded ≡ some (ok c))
        × (validate_config lib c ≡ ok tt)
        × (after ≡ record srv { mgr = (reload lib srv.mgr c (around.detector c)).0 })
  unfolding serve_reload
  reload_parts served = elim (Option-cases loaded) [
    | inl unfinished ↦ absurd (ground (arith, unfinished))
    | inr (r, finished) ↦ elim (Result-cases r) [
      | inl (e, failed) ↦ absurd (ground (arith, finished, failed))
      | inr (c, read) ↦ (
        c,
        finished ∙ ap some read,
        ground (arith, finished, read),
        ground (arith, finished, read),
      )
    ]
  ]

  -- If the daemon answers a Reload request without an error, it has loaded a configuration that
  -- satisfies every condition of its validation, and the files are as they were. A name that the
  -- configuration does not name and that no multi-port parent listed when the removals began is then
  -- not registered with the manager; a forward that was registered then, that the configuration
  -- names, and that is neither a multi-port parent nor listed by one, is as it was.
  pub reload-IsAccepted :
      {after : Server} {counts : ℤ × ℤ}
      → serve_reload lib around fuel srv ≡ some (after, ok counts)
      → (c : Config) × (loaded ≡ some (ok c))
        × IsAccepted lib c
        × (after.disk ≡ srv.disk)
        × ((n : String)
            → names_it n c.services ≡ false
            → NoChild n (refresh_external_forwards srv.mgr (around.detector c)).children
            → lookup n after.mgr.forwards ≡ none)
        × ((n : String) (pf : PortForward)
            → names_it n c.services ≡ true
            → NoChild n (refresh_external_forwards srv.mgr (around.detector c)).children
            → has n (refresh_external_forwards srv.mgr (around.detector c)).children ≡ false
            → lookup n (refresh_external_forwards srv.mgr (around.detector c)).forwards ≡ some pf
            → lookup n after.mgr.forwards ≡ some pf)
  reload-IsAccepted served =
      let (c, load_ok, valid, now) = reload_parts served in
      let at = λ (n : String). ap (λ s. lookup n s.mgr.forwards) now in
      (
        c,
        load_ok,
        validate_config-IsAccepted lib c valid,
        ap (λ s. s.disk) now,
        λ n unnamed childless.
            at n ∙ reload-drops lib srv.mgr c (around.detector c) n unnamed childless,
        λ n pf named childless single there.
            at n ∙ reload-keeps lib srv.mgr c (around.detector c) n pf named childless single there,
      )
