-- ===== src/Config/PortsField.antt =====
-- The polymorphic field `ports` of pkg/config/config.go: UnmarshalYAML, MarshalYAML, parsePortsFromRaw
-- and its counterpart in marshalTOML. What the YAML and TOML packages decode is an argument.
pub mod RoundTrip
use kubeport.Prelude.{
  String, Bool, true, false, ◌&&◌, not, Option, none, some, List, [], ◌∷◌, ◌++◌, map, all, str_eq,
  if◌then◌else◌,
}
use kubeport.Prelude.Int.{ℤ, pos, eq_ℤ}
use kubeport.Prelude.Result.{Result, ok, err}
use kubeport.Prelude.Table.{Table, lookup}
use kubeport.Prelude.GoLib.{Float64}
use kubeport.Config.{PortSelector, PortsConfig, no_ports, nonempty}

-- a decoded value inside a table: a text, an integer, a float or anything else
pub data Scalar : Type 0 where
  text : String → Scalar
  integer : ℤ → Scalar
  float : Float64 → Scalar
  other : Scalar

-- a decoded element of the list
pub data Item : Type 0 where
  name_item : String → Item
  table_item : Table Scalar → Item
  other_item : Item

-- the decoded field: a text, a list or anything else
pub data Raw : Type 0 where
  raw_text : String → Raw
  raw_list : List Item → Raw
  raw_other : Raw

-- what a YAML node yields for a string and for a list; `none` is an error
pub record Node : Type 0 where
  pub as_text : Option String
  pub as_list : Option (List Item)

pub data PortsError : Type 0 where
  invalid_ports_value : String → PortsError
  ports_not_all_or_list : PortsError
  invalid_port_selector : PortsError

-- `name, ok := v["name"].(string)`, and the zero value if it is not one
unfoldable pub text_of : Option Scalar → String
text_of (some (text s)) = s
text_of _ = ""

-- `port, ok := v["port"].(int64)`
unfoldable pub integer_of : Option Scalar → ℤ
integer_of (some (integer n)) = n
integer_of _ = pos 0

-- the same for YAML, where a float is truncated; `truncate` is Go's conversion of a float64
unfoldable pub number_of : (Float64 → ℤ) → Option Scalar → ℤ
number_of truncate (some (integer n)) = n
number_of truncate (some (float x)) = truncate x
number_of truncate _ = pos 0

abbrev pub named : String → PortSelector
named s = record { name = s; port = pos 0; local_port = pos 0 }

-- a selector from its table, by the reader of numbers
unfoldable pub selector_of : (Option Scalar → ℤ) → Table Scalar → PortSelector
selector_of number fields = record {
  name = text_of (lookup "name" fields);
  port = number (lookup "port" fields);
  local_port = number (lookup "local_port" fields);
}

-- the selectors ahead of those that the rest of the list yields
unfoldable pub add_selector :
    PortSelector → Result PortsError (List PortSelector) → Result PortsError (List PortSelector)
add_selector s (err e) = err e
add_selector s (ok rest) = ok (s ∷ rest)

-- the loop of UnmarshalYAML
unfoldable pub yaml_selectors : (Float64 → ℤ) → List Item → Result PortsError (List PortSelector)
yaml_selectors truncate [] = ok []
yaml_selectors truncate (name_item s ∷ rest) = add_selector (named s) (yaml_selectors truncate rest)
yaml_selectors truncate (table_item fields ∷ rest) =
    add_selector (selector_of (number_of truncate) fields) (yaml_selectors truncate rest)
yaml_selectors truncate (other_item ∷ rest) = err invalid_port_selector

-- UnmarshalYAML
unfoldable pub unmarshal_yaml : (Float64 → ℤ) → Node → Result PortsError PortsConfig
unmarshal_yaml truncate node = elim node.as_text [
  | some s ↦
      if str_eq s "all" then ok (record no_ports { all = true }) else err (invalid_ports_value s)
  | none ↦ elim node.as_list [
    | none ↦ err ports_not_all_or_list
    | some items ↦ elim (yaml_selectors truncate items) [
      | err e ↦ err e
      | ok found ↦ ok (record { all = false; selectors = found })
    ]
  ]
]

-- the loop of parsePortsFromRaw: the text "all" among the elements ends it
unfoldable pub raw_selectors : List PortSelector → List Item → Result PortsError PortsConfig
raw_selectors before [] = ok (record { all = false; selectors = before })
raw_selectors before (name_item s ∷ rest) =
    let later = raw_selectors (before ++ named s ∷ []) rest in
    if str_eq s "all" then ok (record { all = true; selectors = before }) else later
raw_selectors before (table_item fields ∷ rest) =
    raw_selectors (before ++ selector_of integer_of fields ∷ []) rest
raw_selectors before (other_item ∷ rest) = err invalid_port_selector

-- parsePortsFromRaw
unfoldable pub parse_ports_from_raw : Raw → Result PortsError PortsConfig
parse_ports_from_raw (raw_text s) =
    if str_eq s "all" then ok (record no_ports { all = true }) else err (invalid_ports_value s)
parse_ports_from_raw (raw_list items) = raw_selectors [] items
parse_ports_from_raw raw_other = err ports_not_all_or_list

-- what is handed to the encoder for the field, if anything
pub data Emitted : Type 0 where
  word : String → Emitted
  names : List String → Emitted
  structs : List PortSelector → Emitted

-- a selector that is only a name
unfoldable pub is_simple : PortSelector → Bool
is_simple s = eq_ℤ s.port (pos 0) && eq_ℤ s.local_port (pos 0)

-- MarshalYAML, and the same steps in marshalTOML
unfoldable pub emit_ports : PortsConfig → Option Emitted
emit_ports p =
    if p.all
    then some (word "all")
    else if not (nonempty p.selectors)
    then none
    else if all is_simple p.selectors
    then some (names (map (λ s. s.name) p.selectors))
    else some (structs p.selectors)
