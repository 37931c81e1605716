-- ===== src/Instances/Kept.antt =====
-- The registry lists every process once, with an endpoint.
use kubeport.Prelude.{◌≡◌, refl, Bool, true, ◌&&◌, ◌||◌, not, List, [], ◌∷◌, arith, any}
use kubeport.Prelude.Int.{ℤ, pos, eq_ℤ, ltb_ℤ}
use kubeport.Config.{is_empty}
use kubeport.Instances.{
  Entry, Stored, absent, corrupt, holding, Failures, register_entry, put_entry, without_pid,
  alive_entries, with_lock, rewrite_store, read_store, close_lock, deregister, list_entries,
  find_by_config,
}
use kubeport.Instances.Steps.{Call, registers, deregisters, lists, finds, call, run_calls}

abbrev pub has_pid : ℤ → List Entry → Bool
has_pid pid es = any (λ x. eq_ℤ x.pid pid) es

-- what Register asks of an entry
abbrev pub is_usable : Entry → Bool
is_usable e = ltb_ℤ (pos 0) e.pid && not (is_empty e.socket && is_empty e.tcp_address)

unfoldable pub are_kept : List Entry → Bool
are_kept [] = true
are_kept (x ∷ rest) = is_usable x && not (has_pid x.pid rest) && are_kept rest

-- no two entries of the file have the same process, and each has a positive process and an endpoint
abbrev pub IsKept : Stored → Type 0
IsKept absent = Unit {0}
IsKept corrupt = Unit {0}
IsKept (holding es) = are_kept es ≡ true

has_pid-put_entry :
    (pid : ℤ) (e : Entry) (es : List Entry)
    → has_pid pid (put_entry e es) ≡ (eq_ℤ e.pid pid || has_pid pid es)
unfolding put_entry
has_pid-put_entry pid e [] = ground arith
has_pid-put_entry pid e (x ∷ rest) = ground (arith, has_pid-put_entry pid e rest)

are_kept-put_entry :
    (e : Entry) (es : List Entry)
    → is_usable e ≡ true
    → are_kept es ≡ true
    → are_kept (put_entry e es) ≡ true
unfolding are_kept put_entry
are_kept-put_entry e [] usable kept = ground arith
are_kept-put_entry e (x ∷ rest) usable kept =
    grind (arith, are_kept-put_entry e rest usable, has_pid-put_entry x.pid e rest)

has_pid-without_pid :
    (pid gone : ℤ) (es : List Entry)
    → has_pid pid (without_pid gone es) ≡ true
    → has_pid pid es ≡ true
unfolding without_pid
has_pid-without_pid pid gone [] has = has
has_pid-without_pid pid gone (x ∷ rest) has = grind (arith, has_pid-without_pid pid gone rest)

are_kept-without_pid :
    (gone : ℤ) (es : List Entry) → are_kept es ≡ true → are_kept (without_pid gone es) ≡ true
unfolding are_kept without_pid
are_kept-without_pid gone [] kept = refl
are_kept-without_pid gone (x ∷ rest) kept =
    grind (arith, are_kept-without_pid gone rest, has_pid-without_pid x.pid gone rest)

has_pid-alive_entries :
    (pid : ℤ) (kill : ℤ → Bool) (es : List Entry)
    → has_pid pid (alive_entries kill es) ≡ true
    → has_pid pid es ≡ true
unfolding alive_entries
has_pid-alive_entries pid kill [] has = has
has_pid-alive_entries pid kill (x ∷ rest) has = grind (arith, has_pid-alive_entries pid kill rest)

are_kept-alive_entries :
    (kill : ℤ → Bool) (es : List Entry)
    → are_kept es ≡ true
    → are_kept (alive_entries kill es) ≡ true
unfolding are_kept alive_entries
are_kept-alive_entries kill [] kept = refl
are_kept-alive_entries kill (x ∷ rest) kept =
    grind (arith, are_kept-alive_entries kill rest, has_pid-alive_entries x.pid kill rest)

-- a change that keeps what the registry asks of its entries
with_lock-IsKept :
    (f : Failures) (change : List Entry → List Entry) (file : Stored)
    → ((es : List Entry) → are_kept es ≡ true → are_kept (change es) ≡ true)
    → IsKept file
    → IsKept (with_lock f change file).1
unfolding with_lock rewrite_store read_store close_lock are_kept
with_lock-IsKept f change absent keeps kept = ground (arith, keeps [] refl)
with_lock-IsKept f change corrupt keeps kept = ground arith
with_lock-IsKept f change (holding es) keeps kept = ground (arith, keeps es)

call-IsKept : (f : Failures) (c : Call) (file : Stored) → IsKept file → IsKept (call f c file).1
unfolding call register_entry deregister list_entries find_by_config
call-IsKept f (registers e) file kept =
    grind (arith, with_lock-IsKept f (put_entry e) file, are_kept-put_entry e)
call-IsKept f (deregisters gone) file kept =
    with_lock-IsKept f (without_pid gone) file (are_kept-without_pid gone) kept
call-IsKept f (lists kill) file kept =
    with_lock-IsKept f (alive_entries kill) file (are_kept-alive_entries kill) kept
call-IsKept f (finds kill abs path) file kept =
    ground
      (arith, kept, with_lock-IsKept f (alive_entries kill) file (are_kept-alive_entries kill) kept)

-- Whatever calls are made one after the other, and whichever of their steps fail, a file in which no two
-- entries have the same process, and each has a positive process and an endpoint, stays such a file.
pub run_calls-IsKept :
    (calls : List (Failures × Call)) (file : Stored) → IsKept file → IsKept (run_calls calls file)
unfolding run_calls
run_calls-IsKept [] file kept = kept
run_calls-IsKept ((f, c) ∷ rest) file kept =
    run_calls-IsKept rest (call f c file).1 (call-IsKept f c file kept)
