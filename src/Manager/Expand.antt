-- ===== src/Manager/Expand.antt =====
-- superviseMulti of internal/proxy/manager.go: what happens to a reserved parent when its ports have
-- been resolved, or could not be.
use Prim.Native.String
use kubeport.Prelude.{String, false, not, some, List, [], ◌∷◌, map, if◌then◌else◌}
use kubeport.Prelude.Int.{ℤ}
use kubeport.Prelude.Table.{insert, has}
use kubeport.Prelude.GoLib.{GoLib}
use kubeport.Config.{ServiceConfig, no_ports, no_network, no_chaos, is_empty}
use kubeport.Manager.{Manager, ManagerError, failed, placeholder, register}

pub record ResolvedPort : Type 0 where
  pub name : String
  pub remote_port : ℤ
  pub local_port : ℤ

module _ (lib : GoLib) where
  unfoldable pub child_name : ServiceConfig → ResolvedPort → String
  child_name s rp =
      String.◌++◌ s.name
        (String.◌++◌ "/" (if is_empty rp.name then lib.itoa rp.remote_port else rp.name))

  -- the fields that are not copied from the parent have Go's zero value
  unfoldable pub child_service : ServiceConfig → ResolvedPort → ServiceConfig
  unfolding child_name
  child_service s rp = record {
    name = child_name s rp;
    service = s.service;
    pod = s.pod;
    local_port = rp.local_port;
    remote_port = rp.remote_port;
    namespace = s.namespace;
    ports = no_ports;
    exclude_ports = [];
    local_port_offset = ℤ.pos 0;
    network = no_network;
    chaos = no_chaos;
    lazy = false;
    connection_mode = "";
    parent_name = s.name;
    port_name = rp.name;
    source_config = s.source_config;
  }

-- one round of the loop that registers the children: a name that is taken is passed over
unfoldable pub register_one : Manager → ServiceConfig → Manager
register_one m c = if has c.name m.forwards then m else register m c.name (placeholder m.cfg c)

unfoldable pub register_each : Manager → List ServiceConfig → Manager
register_each m [] = m
register_each m (c ∷ rest) = register_each (register_one m c) rest

-- the parent's list is written only if the reservation is still there
unfoldable pub register_children : Manager → String → List ServiceConfig → Manager
register_children m parent cs =
    if not (has parent m.children)
    then m
    else let m₁ = register_each m cs in
      record m₁ { children = insert parent (map (λ c. c.name) cs) m₁.children }

-- the parent's own entry after a failed resolution
unfoldable pub register_failed : Manager → ServiceConfig → ManagerError → Manager
register_failed m s e =
    if has s.name m.children
    then if has s.name m.forwards
      then m
      else register m s.name (record (placeholder m.cfg s) { state = failed; error = some e })
    else m

-- superviseMulti once resolveServicePorts has returned
unfoldable pub finish_resolution : GoLib → Manager → ServiceConfig → List ResolvedPort → Manager
finish_resolution lib m s resolved = register_children m s.name (map (child_service lib s) resolved)
