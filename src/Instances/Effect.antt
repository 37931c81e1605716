-- ===== src/Instances/Effect.antt =====
-- A call of the registry either leaves the file as it is or acts on the map from processes to entries.
use kubeport.Prelude.{
  if◌then◌else◌, ◌≡◌, refl, Bool, true, false, Option, none, some, List, [], ◌∷◌, arith,
}
use kubeport.Prelude.Int.{ℤ, eq_ℤ}
use kubeport.Instances.{
  Entry, Stored, absent, corrupt, holding, Failures, register_entry, put_entry, without_pid,
  alive_entries, with_lock, rewrite_store, read_store, close_lock, deregister, is_alive,
  list_entries, find_by_config,
}
use kubeport.Instances.Steps.{
  Call, registers, deregisters, lists, finds, call, entry_of, entry_for, takes_effect, entry_after,
}

entry_of-put_entry :
    (pid : ℤ) (e : Entry) (es : List Entry)
    → entry_of pid (put_entry e es) ≡ (if eq_ℤ e.pid pid then some e else entry_of pid es)
unfolding entry_of put_entry
entry_of-put_entry pid e [] = refl
entry_of-put_entry pid e (x ∷ rest) = ground (arith, entry_of-put_entry pid e rest)

entry_of-without_pid :
    (pid gone : ℤ) (es : List Entry)
    → entry_of pid (without_pid gone es) ≡ (if eq_ℤ gone pid then none else entry_of pid es)
unfolding entry_of without_pid
entry_of-without_pid pid gone [] = ground arith
entry_of-without_pid pid gone (x ∷ rest) = ground (arith, entry_of-without_pid pid gone rest)

entry_of-alive_entries :
    (pid : ℤ) (kill : ℤ → Bool) (es : List Entry)
    → entry_of pid (alive_entries kill es) ≡ (if is_alive kill pid then entry_of pid es else none)
unfolding entry_of alive_entries
entry_of-alive_entries pid kill [] = ground arith
entry_of-alive_entries pid kill (x ∷ rest) = grind (arith, entry_of-alive_entries pid kill rest)

-- what a change of the entries under the lock does to the file
with_lock-file :
    (f : Failures) (change : List Entry → List Entry) (file : Stored) (pid : ℤ)
    (after : Option Entry → Option Entry)
    → ((es : List Entry) → entry_of pid (change es) ≡ after (entry_of pid es))
    → let (reported, file₁) = with_lock f change file in
      (takes_effect reported ≡ false → file₁ ≡ file)
      × (takes_effect reported ≡ true → entry_for pid file₁ ≡ after (entry_for pid file))
unfolding with_lock rewrite_store read_store close_lock entry_for entry_of takes_effect
with_lock-file f change absent pid after changes = ground (arith, changes [])
with_lock-file f change corrupt pid after changes = ground arith
with_lock-file f change (holding es) pid after changes = ground (arith, changes es)

-- A call that reports an error other than the closing of the lock leaves the file as it is. Any other
-- call acts on the map from processes to their entries: Register sets the entry of its process,
-- Deregister removes it, List and FindByConfig keep the entries of the living processes, except that
-- FindByConfig for no path keeps all.
pub call-entry_after :
    (f : Failures) (c : Call) (file : Stored) (pid : ℤ)
    → (takes_effect (call f c file).0 ≡ false → (call f c file).1 ≡ file)
      × (takes_effect (call f c file).0 ≡ true
          → entry_for pid (call f c file).1 ≡ entry_after c pid (entry_for pid file))
unfolding call register_entry deregister list_entries find_by_config entry_after takes_effect
call-entry_after f (registers e) file pid = ground (
  arith,
  with_lock-file f (put_entry e) file pid (entry_after (registers e) pid)
      (entry_of-put_entry pid e),
)
call-entry_after f (deregisters gone) file pid =
    with_lock-file f (without_pid gone) file pid (entry_after (deregisters gone) pid)
      (entry_of-without_pid pid gone)
call-entry_after f (lists kill) file pid =
    with_lock-file f (alive_entries kill) file pid (entry_after (lists kill) pid)
      (entry_of-alive_entries pid kill)
call-entry_after f (finds kill abs path) file pid = ground (
  arith,
  with_lock-file f (alive_entries kill) file pid (entry_after (lists kill) pid)
      (entry_of-alive_entries pid kill),
)
