-- ===== src/Hook/Template.antt =====
-- internal/hook/template.go: the variables of a template and the values that take their place.
pub mod Clean
use Prim.Native.Char.{Char, code}
use Prim.Native.String.{[] as []ₛ, ◌∷◌ as ◌∷ₛ◌, ◌++◌ as ◌++ₛ◌, count}
use text.Mathlib.Text.{starts_with}
use kubeport.Prelude.{
  ℕ, zero, suc, ◌-◌, String, Bool, true, false, Option, none, some, List, [], ◌∷◌, any, ◌==◌,
  if◌then◌else◌,
}
use kubeport.Prelude.Int.{ℤ}
use kubeport.Hook.{Event, event_name}

-- the characters that are dropped: ` $ ( ) { } [ ] | & ; < > newline, carriage return and null
abbrev pub shell_metacharacters : List ℕ
shell_metacharacters =
    96 ∷ 36 ∷ 40 ∷ 41 ∷ 123 ∷ 125 ∷ 91 ∷ 93 ∷ 124 ∷ 38 ∷ 59 ∷ 60 ∷ 62 ∷ 10 ∷ 13 ∷ 0 ∷ []

unfoldable pub is_shell_code : ℕ → Bool
is_shell_code m = any (λ x. m == x) shell_metacharacters

-- sanitizeShellValue
unfoldable pub sanitize_shell_value : String → String
sanitize_shell_value []ₛ = []ₛ
sanitize_shell_value (c ∷ₛ s) =
    let rest = sanitize_shell_value s in if is_shell_code (code c) then rest else c ∷ₛ rest

-- strings.ReplaceAll of a text that is not empty; so many characters of it are still to be skipped
unfoldable pub replace_from : String → String → ℕ → String → String
replace_from old new skip []ₛ = []ₛ
replace_from old new (suc skip) (c ∷ₛ s) = replace_from old new skip s
replace_from old new zero (c ∷ₛ s) =
    let after = replace_from old new (count old - 1) s in
    let next = replace_from old new zero s in
    if starts_with (c ∷ₛ s) old then new ++ₛ after else c ∷ₛ next

unfoldable pub replace_all : String → String → String → String
replace_all s old new = replace_from old new zero s

-- strconv.Itoa, the text of the event's time, and the JSON text of a string without its quotes
pub record Texts : Type 0 where
  pub itoa : ℤ → String
  pub time_of : Event → String
  pub json_encode : String → String

unfoldable pub error_text : Event → String
error_text e = elim e.error [ none ↦ "" | some text ↦ text ]

-- the variables with their values, where `shown` prepares a text of the event
abbrev pub replacements : Texts → String → (String → String) → Event → List (String × String)
replacements t event_text shown e =
    ("${EVENT}", event_text)
    ∷ ("${SERVICE}", shown e.service)
    ∷ ("${PARENT_NAME}", shown e.parent_name)
    ∷ ("${PORT_NAME}", shown e.port_name)
    ∷ ("${PORT}", t.itoa e.local_port)
    ∷ ("${REMOTE_PORT}", t.itoa e.remote_port)
    ∷ ("${POD}", shown e.pod_name)
    ∷ ("${RESTARTS}", t.itoa e.restarts)
    ∷ ("${ERROR}", shown (error_text e))
    ∷ ("${TIME}", t.time_of e)
    ∷ []

-- the loop over the replacements
unfoldable pub replace_each : List (String × String) → String → String
replace_each [] s = s
replace_each ((old, new) ∷ rest) s = replace_each rest (replace_all s old new)

-- ExpandVars
unfoldable pub expand_vars : Texts → String → Event → String
expand_vars t s e = replace_each (replacements t (event_name e.kind) sanitize_shell_value e) s

-- ExpandVarsJSON
unfoldable pub expand_vars_json : Texts → String → Event → String
expand_vars_json t s e =
    replace_each (replacements t (t.json_encode (event_name e.kind)) t.json_encode e) s
