-- ===== src/Addresses/Contributors.antt =====
-- Which client stands behind an entry of the registry, before and after each step.
use kubeport.Prelude.{
  ◌≡◌, ◌≢◌, ap, ◌∙◌, String, true, false, Option, none, some, arith, str_eq, str_eq_iff,
  str_eq_refl, Bool-cases, inl, inr,
}
use kubeport.Prelude.Table.{Table, lookup, lookup-insert, lookup-delete}
use kubeport.Addresses.{Addrs}
use kubeport.Addresses.Clients.{Swap, Shared, open_client, begin_refresh, end_refresh, close_client}
use kubeport.Addresses.Registry.{withdrawn}

-- some open client contributes the entry, or has replaced it in a Refresh that is under way
pub data IsOwned (m : Shared) (k v : String) : Type 0 where
  contributed :
      (id : String) (own : Addrs)
      → lookup id m.clients ≡ some own
      → lookup k own ≡ some v
      → IsOwned m k v
  replaced :
      (id : String) (s : Swap)
      → lookup id m.swaps ≡ some s
      → lookup k s.old ≡ some v
      → IsOwned m k v

-- what is left after a withdrawal was there before, and was not contributed
pub left_over :
    (gone old : Option String) (v : String)
    → withdrawn gone old ≡ some v
    → (old ≡ some v) × (gone ≢ some v)
left_over none old v h = (h, λ p. cc)
left_over (some x) none v h = ground arith
left_over (some x) (some w) v h = ground (arith, str_eq_iff w x)

-- equal names have equal entries
same_entry :
    {V : Type 0} (t : Table V) (id j : String) {a b : V}
    → str_eq id j ≡ true
    → lookup id t ≡ some a
    → lookup j t ≡ some b
    → a ≡ b
same_entry t id j same p q =
    let e : lookup id t ≡ lookup j t = ap (λ x. lookup x t) ((str_eq_iff id j).0 same) in
    ground (arith, p, q, e)

pub no_entry :
    {V : Type 0} (t : Table V) (id j : String) {b : V}
    → lookup id t ≡ none
    → lookup j t ≡ some b
    → str_eq id j ≡ false
no_entry t id j p q = elim (Bool-cases (str_eq id j)) [
  | inr other ↦ other
  | inl same ↦
      let e : lookup id t ≡ lookup j t = ap (λ x. lookup x t) ((str_eq_iff id j).0 same) in
      absurd (ground (arith, p, q, e))
]

pub opened-IsOwned :
    (m : Shared) (id : String) (addrs : Addrs) (k v : String)
    → lookup id m.clients ≡ none
    → IsOwned m k v
    → IsOwned (open_client m id addrs) k v
unfolding open_client
opened-IsOwned m id addrs k v new (contributed j own e c) =
    contributed j own
      (ground (arith, lookup-insert id j addrs m.clients, no_entry m.clients id j new e, e)) c
opened-IsOwned m id addrs k v new (replaced j s e c) = replaced j s e c

-- an entry of the client that begins a Refresh is now one that it has replaced
pub began-IsOwned :
    (m : Shared) (id : String) (old addrs : Addrs) (k v : String)
    → lookup id m.clients ≡ some old
    → lookup id m.swaps ≡ none
    → IsOwned m k v
    → IsOwned (begin_refresh m id old addrs) k v
unfolding begin_refresh
began-IsOwned m id old addrs k v was idle (contributed j own e c) =
    elim (Bool-cases (str_eq id j)) [
      | inl same ↦
          let it : old ≡ own = same_entry m.clients id j same was e in
          replaced id (record { old = old; new = addrs })
            (ground (
              arith,
              lookup-insert id id (record { old = old; new = addrs }) m.swaps,
              str_eq_refl id,
            ))
            (ap (lookup k) it ∙ c)
      | inr other ↦
          contributed j own (ground (arith, lookup-insert id j addrs m.clients, other, e)) c
    ]
began-IsOwned m id old addrs k v was idle (replaced j s e c) =
    replaced j s
      (ground (
        arith,
        lookup-insert id j (record { old = old; new = addrs }) m.swaps,
        no_entry m.swaps id j idle e,
        e,
      ))
      c

-- an entry that neither the new nor the old addresses have keeps its owner
pub ended-IsOwned :
    (m : Shared) (id : String) (w : Swap) (k v : String)
    → lookup id m.swaps ≡ some w
    → lookup k w.old ≢ some v
    → IsOwned m k v
    → IsOwned (end_refresh m id w) k v
unfolding end_refresh
ended-IsOwned m id w k v busy foreign (contributed j own e c) = contributed j own e c
ended-IsOwned m id w k v busy foreign (replaced j s e c) = elim (Bool-cases (str_eq id j)) [
  | inl same ↦
      let it : w ≡ s = same_entry m.swaps id j same busy e in
      absurd (foreign (ap (λ (x : Swap). lookup k x.old) it ∙ c))
  | inr other ↦ replaced j s (ground (arith, lookup-delete id j m.swaps, other, e)) c
]

pub closed-IsOwned :
    (m : Shared) (id : String) (old : Addrs) (k v : String)
    → lookup id m.clients ≡ some old
    → lookup k old ≢ some v
    → IsOwned m k v
    → IsOwned (close_client m id old) k v
unfolding close_client
closed-IsOwned m id old k v was foreign (contributed j own e c) = elim (Bool-cases (str_eq id j)) [
  | inl same ↦
      let it : old ≡ own = same_entry m.clients id j same was e in
      absurd (foreign (ap (lookup k) it ∙ c))
  | inr other ↦ contributed j own (ground (arith, lookup-delete id j m.clients, other, e)) c
]
closed-IsOwned m id old k v was foreign (replaced j s e c) = replaced j s e c
