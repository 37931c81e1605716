-- ===== src/Config/PortsField/RoundTrip.antt =====
-- What is written for the field `ports` is read back.
use kubeport.Prelude.{
  ◌≡◌, refl, ap, sym, String, Bool, true, false, ◌&&◌, ◌||◌, not, Option, none, some, List, [], ◌∷◌,
  ◌++◌, map, all, any, str_eq, arith, str_eq_iff, if◌then◌else◌,
}
use mathlib.Core.List.{append-nil, append_assoc}
use kubeport.Prelude.Int.{ℤ, pos, eq_ℤ}
use kubeport.Prelude.Result.{Result, ok}
use kubeport.Prelude.Table.{Table, lookup}
use kubeport.Prelude.GoLib.{Float64}
use kubeport.Config.{PortSelector, PortsConfig, no_ports}
use kubeport.Config.PortsField.{
  Scalar, text, integer, Item, name_item, table_item, Raw, raw_text, raw_list, Node, Emitted, word,
  names, structs, named, selector_of, text_of, integer_of, number_of, add_selector, yaml_selectors,
  unmarshal_yaml, raw_selectors, parse_ports_from_raw, is_simple, emit_ports, PortsError,
}

-- the entry of a number in a table, left out if it is 0 (`omitempty`)
abbrev pub number_entry : String → ℤ → Table Scalar
number_entry k n = if eq_ℤ n (pos 0) then [] else (k, integer n) ∷ []

abbrev pub name_entry : String → Table Scalar
name_entry s = if str_eq s "" then [] else ("name", text s) ∷ []

-- the table that the encoders write for a selector
abbrev pub fields_of : PortSelector → Table Scalar
fields_of s =
    name_entry s.name ++ number_entry "port" s.port ++ number_entry "local_port" s.local_port

-- the elements that are read back for what was written
abbrev pub items_of : Emitted → List Item
items_of (word w) = []
items_of (names ns) = map name_item ns
items_of (structs ss) = map (λ s. table_item (fields_of s)) ss

-- the TOML package reads back what it wrote
abbrev pub RereadsRaw : (Emitted → Raw) → Type 0
RereadsRaw reread =
    (((w : String) → reread (word w) ≡ raw_text w)
      × ((ns : List String) → reread (names ns) ≡ raw_list (items_of (names ns)))
      × ((ss : List PortSelector) → reread (structs ss) ≡ raw_list (items_of (structs ss))))

abbrev pub RereadsNode : (Emitted → Node) → Type 0
RereadsNode reread =
    (((w : String) → (reread (word w)).as_text ≡ some w)
      × ((ns : List String)
          → ((reread (names ns)).as_text ≡ none)
            × ((reread (names ns)).as_list ≡ some (items_of (names ns))))
      × ((ss : List PortSelector)
          → ((reread (structs ss)).as_text ≡ none)
            × ((reread (structs ss)).as_list ≡ some (items_of (structs ss)))))

-- the selectors are dropped beside `all`
abbrev pub canonical : PortsConfig → PortsConfig
canonical p = if p.all then record no_ports { all = true } else p

selector_of-fields_of :
    (number : Option Scalar → ℤ) (s : PortSelector)
    → ((n : ℤ) → number (some (integer n)) ≡ n)
    → number none ≡ pos 0
    → selector_of number (fields_of s) ≡ s
unfolding selector_of lookup text_of
selector_of-fields_of number s reads zero =
    ground (arith, str_eq_iff s.name "", reads s.port, reads s.local_port)

named-simple :
    (ss : List PortSelector) → all is_simple ss ≡ true → map named (map (λ s. s.name) ss) ≡ ss
unfolding is_simple
named-simple [] simple = refl
named-simple (s ∷ rest) simple = ground (arith, named-simple rest)

abbrev says_all : String → Bool
says_all s = str_eq s "all"

raw_selectors-names :
    (before : List PortSelector) (ns : List String)
    → any says_all ns ≡ false
    → raw_selectors before (map name_item ns)
      ≡ ok (record { all = false; selectors = before ++ map named ns })
unfolding raw_selectors
raw_selectors-names before [] none_all =
    ap (λ ss. ok (record { all = false; selectors = ss })) (sym (append-nil before))
raw_selectors-names before (n ∷ rest) none_all = ground (
  arith,
  raw_selectors-names (before ++ named n ∷ []) rest,
  append_assoc before (named n ∷ []) (map named rest),
)

raw_selectors-structs :
    (before ss : List PortSelector)
    → raw_selectors before (map (λ s. table_item (fields_of s)) ss)
      ≡ ok (record { all = false; selectors = before ++ ss })
unfolding raw_selectors integer_of
raw_selectors-structs before [] =
    ap (λ ss. ok (record { all = false; selectors = ss })) (sym (append-nil before))
raw_selectors-structs before (s ∷ rest) = ground (
  arith,
  selector_of-fields_of integer_of s (λ n. refl) refl,
  raw_selectors-structs (before ++ s ∷ []) rest,
  append_assoc before (s ∷ []) rest,
)

yaml_selectors-names :
    (truncate : Float64 → ℤ) (ns : List String)
    → yaml_selectors truncate (map name_item ns) ≡ ok (map named ns)
unfolding yaml_selectors add_selector
yaml_selectors-names truncate [] = refl
yaml_selectors-names truncate (n ∷ rest) = ground (arith, yaml_selectors-names truncate rest)

yaml_selectors-structs :
    (truncate : Float64 → ℤ) (ss : List PortSelector)
    → yaml_selectors truncate (map (λ s. table_item (fields_of s)) ss) ≡ ok ss
unfolding yaml_selectors add_selector number_of
yaml_selectors-structs truncate [] = refl
yaml_selectors-structs truncate (s ∷ rest) = ground (
  arith,
  selector_of-fields_of (number_of truncate) s (λ n. refl) refl,
  yaml_selectors-structs truncate rest,
)

-- no port is selected by its name alone if that name is "all"
abbrev pub no_name_all : PortsConfig → Bool
no_name_all p = not (all is_simple p.selectors && any (λ s. str_eq s.name "all") p.selectors)

any-names :
    (ss : List PortSelector)
    → any says_all (map (λ s. s.name) ss) ≡ any (λ s. str_eq s.name "all") ss
any-names [] = refl
any-names (s ∷ rest) = ap (λ b. str_eq s.name "all" || b) (any-names rest)

-- the ports that are read for what was written, if anything was
abbrev pub reread_ports :
    (Emitted → Result PortsError PortsConfig) → PortsConfig → Result PortsError PortsConfig
reread_ports parse p = elim (emit_ports p) [ none ↦ ok no_ports | some e ↦ parse e ]

-- What marshalTOML writes for the ports of a service, parsePortsFromRaw reads back, but for
-- selectors beside "all", and if no port is selected by the name "all" alone.
pub parse-emit_toml :
    (reread : Emitted → Raw) (p : PortsConfig)
    → RereadsRaw reread
    → no_name_all p ≡ true
    → reread_ports (λ e. parse_ports_from_raw (reread e)) p ≡ ok (canonical p)
unfolding emit_ports parse_ports_from_raw
parse-emit_toml reread p rereads allowed = ground (
  arith,
  rereads.0 "all",
  rereads.1 (map (λ s. s.name) p.selectors),
  rereads.2 p.selectors,
  named-simple p.selectors,
  raw_selectors-names [] (map (λ s. s.name) p.selectors),
  raw_selectors-structs [] p.selectors,
  any-names p.selectors,
)

-- What MarshalYAML writes for the ports of a service, UnmarshalYAML reads back, but for selectors
-- beside "all".
pub parse-emit_yaml :
    (truncate : Float64 → ℤ) (reread : Emitted → Node) (p : PortsConfig)
    → RereadsNode reread
    → reread_ports (λ e. unmarshal_yaml truncate (reread e)) p ≡ ok (canonical p)
unfolding emit_ports unmarshal_yaml
parse-emit_yaml truncate reread p rereads = ground (
  arith,
  rereads.0 "all",
  rereads.1 (map (λ s. s.name) p.selectors),
  rereads.2 p.selectors,
  named-simple p.selectors,
  yaml_selectors-names truncate (map (λ s. s.name) p.selectors),
  yaml_selectors-structs truncate p.selectors,
)
