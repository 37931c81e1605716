-- ===== src/Instances/Tests.antt =====
-- Two daemons register_entry, one of them again on another socket, and the first deregisters.
use kubeport.Prelude.{◌≡◌, refl, true, false, List, [], ◌∷◌, String}
use kubeport.Prelude.Int.{ℤ, pos}
use kubeport.Instances.{
  put_entry, without_pid, register_entry, read_store, rewrite_store, close_lock, with_lock,
  deregister, Entry, Stored, absent, holding, Failures,
}
use kubeport.Instances.Steps.{
  Call, registers, deregisters, run_calls, call, entry_for, takes_effect, entry_after,
}
use kubeport.Instances.Effect.{call-entry_after}

abbrev daemon : ℤ → String → Entry
daemon pid_ socket_ = record {
  pid = pid_;
  config_file = "";
  pid_file = "";
  log_file = "";
  socket = socket_;
  tcp_address = "";
  auth_enabled = false;
  key_id = "";
  version = "";
  started_at = pos 0;
  delegate = false;
  primary_socket = "";
}

abbrev works : Failures
works = record {
  lock = false;
  read = false;
  marshal = false;
  write = false;
  replace = false;
  close = false;
}

abbrev calls : List (Failures × Call)
calls =
    (works, registers (daemon (pos 7) "/a"))
    ∷ (works, registers (daemon (pos 8) "/b"))
    ∷ (record works { write = true }, registers (daemon (pos 9) "/d"))
    ∷ (works, registers (daemon (pos 8) "/c"))
    ∷ (works, deregisters (pos 7))
    ∷ []

run-calls : run_calls calls absent ≡ holding (daemon (pos 8) "/c" ∷ [])
unfolding run_calls call deregister with_lock close_lock rewrite_store read_store register_entry
    without_pid put_entry
run-calls = refl

abbrev both : Stored
both = holding (daemon (pos 7) "/a" ∷ daemon (pos 8) "/b" ∷ [])

call-entry_after_example :
    (takes_effect (call works (deregisters (pos 7)) both).0 ≡ false
      → (call works (deregisters (pos 7)) both).1 ≡ both)
    × (takes_effect (call works (deregisters (pos 7)) both).0 ≡ true
        → entry_for (pos 7) (call works (deregisters (pos 7)) both).1
          ≡ entry_after (deregisters (pos 7)) (pos 7) (entry_for (pos 7) both))
call-entry_after_example = call-entry_after works (deregisters (pos 7)) both (pos 7)
