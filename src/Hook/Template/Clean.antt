-- ===== src/Hook/Template/Clean.antt =====
-- What the values of an event can bring into the argument of a command.
use Prim.Native.Char.{code}
use Prim.Native.String.{[] as []ₛ, ◌∷◌ as ◌∷ₛ◌, ◌++◌ as ◌++ₛ◌, count}
use text.Mathlib.TextLemmas.{nil-append, cons-append}
use kubeport.Prelude.{
  ℕ, zero, suc, ◌-◌, ◌≡◌, refl, String, Bool, true, false, ◌||◌, ◌&&◌, not, List, [], ◌∷◌, arith,
  ap, Bool-cases, inl, inr, ◌==◌,
}
use kubeport.Prelude.Int.{ℤ}
use kubeport.Hook.{
  Event, EventType, event_name, manager_starting, manager_stopped, forward_connected,
  forward_disconnected, forward_failed, forward_stopped, health_check_failed, service_added,
  service_removed, pod_terminating,
}
use kubeport.Hook.Template.{
  is_shell_code, sanitize_shell_value, replace_from, replace_all, Texts, replacements, replace_each,
  expand_vars, error_text,
}

-- the text has a character with that code
unfoldable pub has_code : ℕ → String → Bool
has_code m []ₛ = false
has_code m (c ∷ₛ s) = code c == m || has_code m s

has_code-append : (m : ℕ) (s t : String) → has_code m (s ++ₛ t) ≡ (has_code m s || has_code m t)
unfolding has_code
has_code-append m []ₛ t = rw (nil-append t) refl
has_code-append m (c ∷ₛ s) t = rw (cons-append c s t) (ground (arith, has_code-append m s t))

-- a code of the shell and another one differ
apart : (n m : ℕ) → is_shell_code n ≡ false → is_shell_code m ≡ true → (n == m) ≡ false
apart n m plain shell = elim (Bool-cases (n == m)) [
  | inl same ↦
      let equal : n ≡ m = ground (arith, same) in
      let both : is_shell_code n ≡ is_shell_code m = ap is_shell_code equal in
      absurd (ground (arith, both, plain, shell))
  | inr differs ↦ differs
]

has_code-sanitize :
    (m : ℕ) (s : String) → is_shell_code m ≡ true → has_code m (sanitize_shell_value s) ≡ false
unfolding has_code sanitize_shell_value
has_code-sanitize m []ₛ shell = refl
has_code-sanitize m (c ∷ₛ s) shell =
    ground (arith, shell, apart (code c) m, has_code-sanitize m s shell)

has_code-replace_from :
    (m : ℕ) (old new : String) (skip : ℕ) (s : String)
    → has_code m new ≡ false
    → has_code m s ≡ false
    → has_code m (replace_from old new skip s) ≡ false
unfolding has_code replace_from
has_code-replace_from m old new skip []ₛ clean free = refl
has_code-replace_from m old new (suc skip) (c ∷ₛ s) clean free =
    ground (arith, free, has_code-replace_from m old new skip s)
has_code-replace_from m old new zero (c ∷ₛ s) clean free = ground (
  arith,
  clean,
  free,
  has_code-replace_from m old new (count old - 1) s,
  has_code-replace_from m old new zero s,
  has_code-append m new (replace_from old new (count old - 1) s),
)

-- none of the values has the character
abbrev values_free : ℕ → List (String × String) → Bool
values_free m [] = true
values_free m ((old, new) ∷ rest) = not (has_code m new) && values_free m rest

has_code-replace_each :
    (m : ℕ) (values : List (String × String)) (s : String)
    → values_free m values ≡ true
    → has_code m s ≡ false
    → has_code m (replace_each values s) ≡ false
unfolding replace_each replace_all
has_code-replace_each m [] s clean free = free
has_code-replace_each m ((old, new) ∷ rest) s clean free =
    has_code-replace_each m rest (replace_from old new zero s) (ground (arith, clean))
      (has_code-replace_from m old new zero s (ground (arith, clean)) free)

-- a text without any of these characters
abbrev is_plain : String → Bool
is_plain []ₛ = true
is_plain (c ∷ₛ s) = not (is_shell_code (code c)) && is_plain s

has_code-plain :
    (m : ℕ) (s : String) → is_shell_code m ≡ true → is_plain s ≡ true → has_code m s ≡ false
unfolding has_code
has_code-plain m []ₛ shell plain = refl
has_code-plain m (c ∷ₛ s) shell plain =
    ground (arith, shell, plain, apart (code c) m, has_code-plain m s shell)

event_name-is_plain : (k : EventType) → is_plain (event_name k) ≡ true
unfolding event_name is_shell_code
event_name-is_plain manager_starting = refl
event_name-is_plain manager_stopped = refl
event_name-is_plain forward_connected = refl
event_name-is_plain forward_disconnected = refl
event_name-is_plain forward_failed = refl
event_name-is_plain forward_stopped = refl
event_name-is_plain health_check_failed = refl
event_name-is_plain service_added = refl
event_name-is_plain service_removed = refl
event_name-is_plain pod_terminating = refl

-- A character that the shell treats specially and that is not in the template is not in the text
-- that ExpandVars makes of it, whatever the names, the pod and the error of the event are, if
-- numbers and times are printed without such characters.
pub expand_vars-shell_code :
    (t : Texts) (template : String) (e : Event) (m : ℕ)
    → ((n : ℤ) → has_code m (t.itoa n) ≡ false)
    → ((event : Event) → has_code m (t.time_of event) ≡ false)
    → is_shell_code m ≡ true
    → has_code m template ≡ false
    → has_code m (expand_vars t template e) ≡ false
unfolding expand_vars
expand_vars-shell_code t template e m numbers times shell free =
    has_code-replace_each m (replacements t (event_name e.kind) sanitize_shell_value e) template
      (ground (
        arith,
        has_code-plain m (event_name e.kind) shell (event_name-is_plain e.kind),
        has_code-sanitize m e.service shell,
        has_code-sanitize m e.parent_name shell,
        has_code-sanitize m e.port_name shell,
        has_code-sanitize m e.pod_name shell,
        has_code-sanitize m (error_text e) shell,
        numbers e.local_port,
        numbers e.remote_port,
        numbers e.restarts,
        times e,
      ))
      free
