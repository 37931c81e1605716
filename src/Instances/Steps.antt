-- ===== src/Instances/Steps.antt =====
-- The operations of the registry as calls, one after the other under the file lock, and what a call
-- does to the map from processes to entries.
use kubeport.Prelude.{String, Bool, true, false, Option, none, some, List, [], ◌∷◌, if◌then◌else◌}
use kubeport.Prelude.Int.{ℤ, eq_ℤ}
use kubeport.Prelude.Result.{ok, err}
use kubeport.Config.{is_empty}
use kubeport.Instances.{
  Entry, Stored, absent, corrupt, holding, RegistryError, close_failed, Failures, StoreOutcome,
  register_entry, deregister, is_alive, list_entries, find_by_config,
}

pub data Call : Type 0 where
  registers : Entry → Call
  deregisters : ℤ → Call
  lists : (ℤ → Bool) → Call
  finds : (ℤ → Bool) → (String → Option String) → String → Call

-- what the call reports, and the file after it
unfoldable pub call : Failures → Call → Stored → StoreOutcome
call f (registers e) file = register_entry f e file
call f (deregisters pid) file = deregister f pid file
call f (lists kill) file = let (entries, outcome) = list_entries f kill file in outcome
call f (finds kill abs path) file =
    let (found, after) = find_by_config f kill abs path file in
    (elim found [ err e ↦ some e | ok x ↦ none ], after)

unfoldable pub run_calls : List (Failures × Call) → Stored → Stored
run_calls [] file = file
run_calls ((f, c) ∷ rest) file = let (reported, after) = call f c file in run_calls rest after

-- the first entry of a process
unfoldable pub entry_of : ℤ → List Entry → Option Entry
entry_of pid [] = none
entry_of pid (x ∷ rest) = if eq_ℤ x.pid pid then some x else entry_of pid rest

unfoldable pub entry_for : ℤ → Stored → Option Entry
entry_for pid absent = none
entry_for pid corrupt = none
entry_for pid (holding es) = entry_of pid es

-- no error, or only the closing of the lock failed
unfoldable pub takes_effect : Option RegistryError → Bool
takes_effect none = true
takes_effect (some close_failed) = true
takes_effect (some _) = false

-- the entry of a process after a call that took effect, from the entry before
unfoldable pub entry_after : Call → ℤ → Option Entry → Option Entry
entry_after (registers e) pid before = if eq_ℤ e.pid pid then some e else before
entry_after (deregisters gone) pid before = if eq_ℤ gone pid then none else before
entry_after (lists kill) pid before = if is_alive kill pid then before else none
entry_after (finds kill abs path) pid before =
    if is_empty path then before else if is_alive kill pid then before else none
