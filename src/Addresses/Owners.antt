-- ===== src/Addresses/Owners.antt =====
-- Who contributes an entry of the registry that the clients share.
use kubeport.Prelude.{◌≡◌, String, some}
use kubeport.Prelude.Table.{lookup}
use kubeport.Addresses.{Addrs}
use kubeport.Addresses.Clients.{Swap, Shared}
use kubeport.Addresses.Registry.{IsMap}
use kubeport.Addresses.Contributors.{IsOwned}

pub record IsShared (m : Shared) : Type 0 where
  pub maps : (id : String) (a : Addrs) → lookup id m.clients ≡ some a → IsMap a
  pub old_maps : (id : String) (s : Swap) → lookup id m.swaps ≡ some s → IsMap s.old
  pub answered :
      (id : String) (s : Swap) → lookup id m.swaps ≡ some s → lookup id m.clients ≡ some s.new
  pub owned : (k v : String) → lookup k m.addrs ≡ some v → IsOwned m k v
