-- ===== src/Addresses.antt =====
-- pkg/proxy/client.go and pkg/proxy/global_resolver.go: how an address inside the cluster is
-- translated, and the registry of addresses to which every client of a daemon contributes.
pub mod Registry
pub mod Clients
pub mod Contributors
pub mod Owners
pub mod Translate
mod Tests
use Prim.Native.String.{◌++◌ as cat}
use kubeport.Prelude.{
  String, Bool, true, false, Option, none, some, List, [], ◌∷◌, str_eq, if◌then◌else◌,
}
use kubeport.Prelude.Table.{Table, lookup, insert, delete, has}

abbrev pub Addrs : Type 0
Addrs = Table String

-- maps.Copy(r.addrs, addrs)
unfoldable pub copy_addrs : Addrs → Addrs → Addrs
copy_addrs r [] = r
copy_addrs r ((k, v) ∷ rest) = insert k v (copy_addrs r rest)

-- `if r.addrs[k] == v { delete(r.addrs, k) }`
unfoldable pub delete_matching : Addrs → String → String → Addrs
delete_matching r k v = elim (lookup k r) [
  | none ↦ r
  | some w ↦ if str_eq w v then delete k r else r
]

-- registry.merge
unfoldable pub merge_addrs : Addrs → Addrs → Addrs
merge_addrs r addrs = copy_addrs r addrs

-- registry.remove
unfoldable pub remove_addrs : Addrs → Addrs → Addrs
remove_addrs r [] = r
remove_addrs r ((k, v) ∷ rest) = delete_matching (remove_addrs r rest) k v

-- the loop of registry.swap over the old addresses
unfoldable pub drop_absent : Addrs → Addrs → Addrs → Addrs
drop_absent new r [] = r
drop_absent new r ((k, v) ∷ rest) =
    let others = drop_absent new r rest in if has k new then others else delete_matching others k v

-- registry.swap
unfoldable pub swap_addrs : Addrs → Addrs → Addrs → Addrs
swap_addrs r old new = drop_absent new (copy_addrs r new) old

abbrev or_itself : String → Option String → String
or_itself addr none = addr
or_itself addr (some translated) = translated

module _ (split_host_port : String → Option (String × String))
    (join_host_port : String → String → String) (cut_dot : String → Option (String × String)) where
  -- extractNamespace; `cut_dot` is strings.Cut at "."
  unfoldable pub extract_namespace : String → String
  extract_namespace rest = elim (cut_dot rest) [
    | none ↦ ""
    | some (svc, after_svc) ↦ elim (cut_dot after_svc) [ none ↦ after_svc | some (ns, domain) ↦ ns ]
  ]

  -- the entry of a namespace-qualified pod, if the namespace is known
  unfoldable pub qualified_entry : Addrs → String → String → String → Option String
  qualified_entry addrs short rest port =
      if str_eq (extract_namespace rest) ""
      then none
      else lookup (join_host_port (cat short (cat "." (extract_namespace rest))) port) addrs

  -- the fuzzy match of a headless-service name
  unfoldable pub fuzzy_entry : Addrs → String → String → Option String
  fuzzy_entry addrs host port = elim (cut_dot host) [
    | none ↦ none
    | some (short, rest) ↦ elim (qualified_entry addrs short rest port) [
      | some translated ↦ some translated
      | none ↦ lookup (join_host_port short port) addrs
    ]
  ]

  -- resolveAddr
  unfoldable pub resolve_addr : Addrs → String → Bool → String
  resolve_addr addrs addr fuzzy = elim (lookup addr addrs) [
    | some translated ↦ translated
    | none ↦ elim (split_host_port addr) [
      | none ↦ addr
      | some (host, port) ↦ elim (lookup host addrs) [
        | some translated ↦ join_host_port translated port
        | none ↦ if fuzzy then or_itself addr (fuzzy_entry addrs host port) else addr
      ]
    ]
  ]
