-- ===== src/Addresses/Tests.antt =====
-- Two clients on one registry, and a pod behind a headless service.
use Prim.Native.String.{◌++◌ as cat}
use kubeport.Prelude.{◌≡◌, refl, String, Option, none, some, [], ◌∷◌, str_eq, if◌then◌else◌}
use kubeport.Prelude.Table.{lookup, insert, delete}
use kubeport.Addresses.{
  Addrs, merge_addrs, remove_addrs, swap_addrs, copy_addrs, delete_matching, drop_absent,
}
use kubeport.Addresses.Registry.{IsMap, or_else, withdrawn, swap-merge-remove}
use kubeport.Addresses.Clients.{Shared, open_client, begin_refresh, end_refresh, close_client}

abbrev before : Addrs
before = ("web:80", "localhost:8080") ∷ ("redis-0.dev:6379", "localhost:6379") ∷ []

abbrev after : Addrs
after = ("web:80", "localhost:8081") ∷ []

before-IsMap : IsMap before
unfolding IsMap lookup
before-IsMap = (refl, (refl, tt))

swap-merge-remove_example :
    (lookup "redis-0.dev:6379" (swap_addrs before before after)
      ≡ lookup "redis-0.dev:6379" (merge_addrs (remove_addrs before before) after))
    × (lookup "redis-0.dev:6379" (swap_addrs before before after)
        ≡ or_else
            (lookup "redis-0.dev:6379" after)
            (withdrawn (lookup "redis-0.dev:6379" before) (lookup "redis-0.dev:6379" before)))
swap-merge-remove_example = swap-merge-remove "redis-0.dev:6379" before before after before-IsMap

abbrev nobody : Shared
nobody = record { addrs = []; clients = []; swaps = [] }

abbrev one_open : Shared
one_open = open_client nobody "a" before

-- its client has the new addresses, the registry the old ones
abbrev half_refreshed : Shared
half_refreshed = begin_refresh one_open "a" before after

-- Close within a Refresh: the client is gone, and the rest of the Refresh brings its address back.
abbrev overlapped : Shared
overlapped =
    end_refresh (close_client half_refreshed "a" after) "a" (record { old = before; new = after })

overlap-orphans :
    (lookup "web:80" overlapped.addrs ≡ some "localhost:8081") × (overlapped.clients ≡ [])
unfolding lookup end_refresh close_client begin_refresh open_client insert delete merge_addrs
    copy_addrs remove_addrs delete_matching swap_addrs drop_absent
overlap-orphans = (refl, refl)

abbrev split_pair : String → Option (String × String)
split_pair s =
    if str_eq s "redis-0.redis.dev.svc:6379" then some ("redis-0.redis.dev.svc", "6379") else none

abbrev join_pair : String → String → String
join_pair host port = cat host (cat ":" port)

abbrev first_label : String → Option (String × String)
first_label s =
    if str_eq s "redis-0.redis.dev.svc"
    then some ("redis-0", "redis.dev.svc")
    else if str_eq s "redis.dev.svc"
    then some ("redis", "dev.svc")
    else if str_eq s "dev.svc"
    then some ("dev", "svc")
    else none
