-- ===== src/Config/Merge/Chain.antt =====
-- Laws of the merge: a chain of parents folds from either end, and a name has the definition of the
-- nearest configuration that gives one.
use kubeport.Prelude.{String, ◌≡◌, Bool, Option, arith, str_eq_iff, Option-cases}
use kubeport.Prelude.Int.{ℤ}
use kubeport.Config.{SupervisorConfig, NetworkConfig, Config}
use kubeport.Config.Keyed.Assoc.{merge_assoc}
use kubeport.Config.Network.{resolve_network}
use kubeport.Config.Merge.{
  text_or, int_or, unless_set, merge_supervisor, service_key, hook_key, merge_services, merge_hooks,
  merge_configs,
}

text_or_assoc : (a b c : String) → text_or (text_or a b) c ≡ text_or a (text_or b c)
text_or_assoc a b c = ground (arith, str_eq_iff b "", str_eq_iff c "")

int_or_assoc : (a b c : ℤ) → int_or (int_or a b) c ≡ int_or a (int_or b c)
int_or_assoc a b c = ground arith

merge_supervisor_assoc :
    (a b c : SupervisorConfig)
    → merge_supervisor (merge_supervisor a b) c ≡ merge_supervisor a (merge_supervisor b c)
unfolding merge_supervisor
merge_supervisor_assoc a b c = λ i. record {
  max_restarts = int_or_assoc a.max_restarts b.max_restarts c.max_restarts i;
  health_check_interval =
      text_or_assoc a.health_check_interval b.health_check_interval c.health_check_interval i;
  health_check_threshold =
      int_or_assoc a.health_check_threshold b.health_check_threshold c.health_check_threshold i;
  ready_timeout = text_or_assoc a.ready_timeout b.ready_timeout c.ready_timeout i;
  backoff_initial = text_or_assoc a.backoff_initial b.backoff_initial c.backoff_initial i;
  backoff_max = text_or_assoc a.backoff_max b.backoff_max c.backoff_max i;
  max_connection_age =
      text_or_assoc a.max_connection_age b.max_connection_age c.max_connection_age i;
  connection_mode = text_or_assoc a.connection_mode b.connection_mode c.connection_mode i;
}

resolve_network_assoc :
    (a b c : NetworkConfig)
    → resolve_network (resolve_network a b) c ≡ resolve_network a (resolve_network b c)
unfolding resolve_network
resolve_network_assoc a b c = λ i. record {
  latency = text_or_assoc a.latency b.latency c.latency i;
  jitter = text_or_assoc a.jitter b.jitter c.jitter i;
  bandwidth = text_or_assoc a.bandwidth b.bandwidth c.bandwidth i;
}

-- Two merges of `enabled`-guarded sections; `f` reads the flag.
unless_set_assoc :
    {A : Type 0} (f : A → Option Bool) (a b c : A)
    → unless_set (f c) (unless_set (f b) a b) c
      ≡ unless_set (f (unless_set (f c) b c)) a (unless_set (f c) b c)
unless_set_assoc f a b c = ground (arith, Option-cases (f c))

-- Merging a grandparent, a parent and a child gives the same configuration whether the grandparent and the parent are merged first or the parent and the child.
pub merge_configs_assoc :
    (a b c : Config) → merge_configs (merge_configs a b) c ≡ merge_configs a (merge_configs b c)
unfolding merge_configs merge_services merge_hooks
merge_configs_assoc a b c = λ i. record {
  extends = "";
  context = text_or_assoc a.context b.context c.context i;
  namespace = text_or_assoc a.namespace b.namespace c.namespace i;
  log_file_path = text_or_assoc a.log_file_path b.log_file_path c.log_file_path i;
  log_level = text_or_assoc a.log_level b.log_level c.log_level i;
  listen = text_or_assoc a.listen b.listen c.listen i;
  api_key = text_or_assoc a.api_key b.api_key c.api_key i;
  key_id = text_or_assoc a.key_id b.key_id c.key_id i;
  host = text_or_assoc a.host b.host c.host i;
  services = merge_assoc service_key a.services b.services c.services i;
  hooks = merge_assoc hook_key a.hooks b.hooks c.hooks i;
  supervisor = merge_supervisor_assoc a.supervisor b.supervisor c.supervisor i;
  network = resolve_network_assoc a.network b.network c.network i;
  chaos = unless_set_assoc (λ x. x.enabled) a.chaos b.chaos c.chaos i;
  socks = unless_set_assoc (λ x. x.enabled) a.socks b.socks c.socks i;
  http_proxy = unless_set_assoc (λ x. x.enabled) a.http_proxy b.http_proxy c.http_proxy i;
  file_path = c.file_path;
  format = c.format;
}
