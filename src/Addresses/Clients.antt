-- ===== src/Addresses/Clients.antt =====
-- The clients that share the registry: newClient, Refresh and Close of pkg/proxy/client.go as steps. A
-- Refresh is two steps, since it gives its client's lock back before it takes the registry's.
use kubeport.Prelude.{◌≡◌, String, none, some, []}
use kubeport.Prelude.Table.{Table, lookup, insert, delete}
use kubeport.Addresses.{Addrs, merge_addrs, remove_addrs, swap_addrs}
use kubeport.Addresses.Registry.{IsMap}

-- a Refresh between its two critical sections: the addresses that it has replaced in its client, and
-- the daemon's answer
pub record Swap : Type 0 where
  pub old : Addrs
  pub new : Addrs

-- the global registry, each open client with its addresses, and the Refresh of each client that is
-- under way
pub record Shared : Type 0 where
  pub addrs : Addrs
  pub clients : Table Addrs
  pub swaps : Table Swap

-- newClient: the client's addresses are merged into the registry
unfoldable pub open_client : Shared → String → Addrs → Shared
open_client m id addrs = record m {
  addrs = merge_addrs m.addrs addrs;
  clients = insert id addrs m.clients;
}

-- Refresh up to its unlock: the client has the daemon's answer
unfoldable pub begin_refresh : Shared → String → Addrs → Addrs → Shared
begin_refresh m id old addrs = record m {
  clients = insert id addrs m.clients;
  swaps = insert id (record { old = old; new = addrs }) m.swaps;
}

-- the rest of Refresh: the registry follows
unfoldable pub end_refresh : Shared → String → Swap → Shared
end_refresh m id s = record m { addrs = swap_addrs m.addrs s.old s.new; swaps = delete id m.swaps }

-- Close
unfoldable pub close_client : Shared → String → Addrs → Shared
close_client m id old = record m { addrs = remove_addrs m.addrs old; clients = delete id m.clients }

-- the steps of clients that start no Refresh and no Close while an own Refresh is under way; the
-- steps of different clients come in any order
pub data Step (m : Shared) : Shared → Type 0 where
  opened :
      (id : String) (addrs : Addrs)
      → lookup id m.clients ≡ none
      → IsMap addrs
      → Step m (open_client m id addrs)
  refreshes :
      (id : String) (old addrs : Addrs)
      → lookup id m.clients ≡ some old
      → lookup id m.swaps ≡ none
      → IsMap addrs
      → Step m (begin_refresh m id old addrs)
  refreshed : (id : String) (s : Swap) → lookup id m.swaps ≡ some s → Step m (end_refresh m id s)
  closed :
      (id : String) (old : Addrs)
      → lookup id m.clients ≡ some old
      → lookup id m.swaps ≡ none
      → Step m (close_client m id old)

pub data Reach : Shared → Type 0 where
  start : Reach (record { addrs = []; clients = []; swaps = [] })
  next : {m n : Shared} → Reach m → Step m n → Reach n
