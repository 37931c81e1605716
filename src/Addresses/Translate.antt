-- ===== src/Addresses/Translate.antt =====
-- The translation of an address that the registry holds, and of a pod behind a headless service.
use Prim.Native.String.{◌++◌ as cat}
use kubeport.Prelude.{
  ◌≡◌, ◌≢◌, String, Bool, true, false, Option, none, some, arith, str_eq_iff, Option-cases,
}
use kubeport.Prelude.Table.{lookup}
use kubeport.Addresses.{Addrs, extract_namespace, qualified_entry, fuzzy_entry, resolve_addr}
use kubeport.Addresses.Registry.{lookup-merge_addrs}
use kubeport.Addresses.Clients.{Shared, open_client}

module _ (split_host_port : String → Option (String × String))
    (join_host_port : String → String → String) (cut_dot : String → Option (String × String)) where
  -- After a client has opened, every address that it contributes translates to its local address,
  -- with and without fuzzy matching, whatever the registry held for it before.
  pub resolve_addr-open_client :
      (m : Shared) (id : String) (addrs : Addrs) (addr translated : String) (fuzzy : Bool)
      → lookup addr addrs ≡ some translated
      → resolve_addr split_host_port join_host_port cut_dot
          (open_client m id addrs).addrs
          addr
          fuzzy
        ≡ translated
  unfolding resolve_addr open_client
  resolve_addr-open_client m id addrs addr translated fuzzy h =
      ground (arith, lookup-merge_addrs addr m.addrs addrs, h)

  -- With fuzzy matching the address pod.svc.ns.domain:port of a pod behind a headless service, which
  -- has no entry of its own nor for its host, translates to the entry of pod.ns:port if there is
  -- one, and else to the entry of pod:port if there is one; without fuzzy matching it stays as it is.
  pub resolve_addr-headless :
      (addrs : Addrs) (addr host port short rest svc after_svc ns domain : String)
      → split_host_port addr ≡ some (host, port)
      → cut_dot host ≡ some (short, rest)
      → cut_dot rest ≡ some (svc, after_svc)
      → cut_dot after_svc ≡ some (ns, domain)
      → ns ≢ ""
      → lookup addr addrs ≡ none
      → lookup host addrs ≡ none
      → (resolve_addr split_host_port join_host_port cut_dot addrs addr true
          ≡ (elim (lookup (join_host_port (cat short (cat "." ns)) port) addrs) [
            | some translated ↦ translated
            | none ↦ elim (lookup (join_host_port short port) addrs) [
              | some translated ↦ translated
              | none ↦ addr
            ]
          ]))
        × (resolve_addr split_host_port join_host_port cut_dot addrs addr false ≡ addr)
  unfolding resolve_addr fuzzy_entry qualified_entry extract_namespace
  resolve_addr-headless addrs addr host port short rest svc after_svc ns domain at_port at_pod
        at_svc at_ns named no_addr no_host =
      ground (
        arith,
        at_port,
        at_pod,
        at_svc,
        at_ns,
        no_addr,
        no_host,
        str_eq_iff ns "",
        named,
        Option-cases (lookup (join_host_port (cat short (cat "." ns)) port) addrs),
        Option-cases (lookup (join_host_port short port) addrs),
      )
