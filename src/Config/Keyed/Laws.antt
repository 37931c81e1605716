-- ===== src/Config/Keyed/Laws.antt =====
-- The merge of two keyed lists: which keys it holds, which entry stands under a key, and that
-- merging is associative.
use kubeport.Prelude.{
  String, ◌≡◌, refl, ap, false, ◌||◌, ◌&&◌, not, Option, none, some, List, [], ◌∷◌, ◌++◌, map,
  str_eq, str_eq_iff, if◌then◌else◌, arith, Bool-cases, Option-cases, inl, inr,
}
use kubeport.Prelude.Table.{Table, empty, insert, lookup, lookup-insert, lookup-empty}
use kubeport.Config.Keyed.{has_key, index, replace, seen, fresh, merge}

abbrev pub or_else {ℓ} : {A : Type ℓ} → Option A → Option A → Option A
or_else (some a) o = some a
or_else none o = o

pub or_else_assoc {ℓ} :
    {A : Type ℓ} (a b c : Option A) → or_else a (or_else b c) ≡ or_else (or_else a b) c
or_else_assoc (some a) b c = refl
or_else_assoc none b c = refl

module _ {A : Type 0} (key : A → Option String) where
  -- the entry that the index ends up with under a key
  unfoldable pub last_keyed : String → List A → Option A
  last_keyed n [] = none
  last_keyed n (x ∷ xs) = or_else (last_keyed n xs) (if has_key key n x then some x else none)

  lookup-index :
      (n : String) (t : Table A) (xs : List A)
      → lookup n (index key t xs) ≡ or_else (last_keyed n xs) (lookup n t)
  unfolding index last_keyed
  lookup-index n t [] = refl
  lookup-index n t (x ∷ xs) = elim (Option-cases (key x)) [
    | inl e ↦ rw (e, index) (ground (arith, lookup-index n t xs, e))
    | inr (m, e) ↦
        rw (e, index) (ground (arith, lookup-index n (insert m x t) xs, lookup-insert m n x t, e))
  ]

  -- the loop over the base, with the index read off the override itself
  unfoldable pub replaced : List A → A → A
  replaced over x = elim (key x) [
    | none ↦ x
    | some n ↦ elim (last_keyed n over) [ some ov ↦ ov | none ↦ x ]
  ]

  replace-eq-replaced :
      (over : List A) (x : A) → replace key (index key empty over) x ≡ replaced over x
  unfolding replace replaced
  replace-eq-replaced over x = elim (Option-cases (key x)) [
    | inl e ↦ rw (e, replace, replaced)
    | inr (n, e) ↦ ground (arith, e, lookup-index n empty over, lookup-empty {V = A} n)
  ]

  pub merge-eq :
      (base over : List A) → merge key base over ≡ map (replaced over) base ++ fresh key base over
  unfolding merge
  merge-eq base over = go base
    where
      heads : (xs : List A) → map (replace key (index key empty over)) xs ≡ map (replaced over) xs
      heads [] = refl
      heads (x ∷ xs) = cc (replace-eq-replaced over x, heads xs)

      go :
          (xs : List A)
          → map (replace key (index key empty over)) xs ++ fresh key base over
            ≡ map (replaced over) xs ++ fresh key base over
      go xs = ap (λ l. l ++ fresh key base over) (heads xs)

  -- an entry found under a key has that key
  key-last_keyed : (n : String) (xs : List A) (y : A) → last_keyed n xs ≡ some y → key y ≡ some n
  unfolding last_keyed
  key-last_keyed n [] y h = cc
  key-last_keyed n (x ∷ xs) y h = elim (Option-cases (last_keyed n xs)) [
    | inl e ↦ elim (Option-cases (key x)) [
      | inl k ↦ ground (arith, e, k)
      | inr (m, k) ↦ ground (arith, e, k, str_eq_iff m n)
    ]
    | inr (z, e) ↦ ground (arith, e, key-last_keyed n xs y)
  ]

  pub key-replaced : (over : List A) (x : A) → key (replaced over x) ≡ key x
  unfolding replaced
  key-replaced over x = elim (Option-cases (key x)) [
    | inl e ↦ rw (e, replaced) e
    | inr (n, e) ↦ elim (Option-cases (last_keyed n over)) [
      | inl o ↦ rw (e, replaced, o) e
      | inr (y, o) ↦ rw (e, replaced, o) (key-last_keyed n over y o)
    ]
  ]

  pub has_key-replaced :
      (n : String) (over : List A) (x : A) → has_key key n (replaced over x) ≡ has_key key n x
  has_key-replaced n over x = rw (key-replaced over x, has_key) refl

  seen-replaced :
      (n : String) (over xs : List A) → seen key n (map (replaced over) xs) ≡ seen key n xs
  seen-replaced n over [] = refl
  seen-replaced n over (x ∷ xs) = cc (has_key-replaced n over x, seen-replaced n over xs)

  seen-append :
      (n : String) (xs ys : List A) → seen key n (xs ++ ys) ≡ (seen key n xs || seen key n ys)
  seen-append n [] ys = refl
  seen-append n (x ∷ xs) ys = ground (arith, seen-append n xs ys)

  seen-fresh :
      (n : String) (base xs : List A)
      → seen key n (fresh key base xs) ≡ (seen key n xs && not (seen key n base))
  unfolding fresh
  seen-fresh n base [] = refl
  seen-fresh n base (x ∷ xs) = elim (Option-cases (key x)) [
    | inl e ↦ rw (e, fresh) (ground (arith, e, seen-fresh n base xs))
    | inr (m, e) ↦ elim (Bool-cases (str_eq m n)) [
      | inl q ↦
          let p : m ≡ n = (str_eq_iff m n).0 q in
          ground (arith, e, q, p, ap (λ k. seen key k base) p, seen-fresh n base xs)
      | inr q ↦ ground (arith, e, q, seen-fresh n base xs)
    ]
  ]

  -- The merged list has the keys of both lists.
  pub seen-merge :
      (n : String) (base over : List A)
      → seen key n (merge key base over) ≡ (seen key n base || seen key n over)
  seen-merge n base over =
      rw (merge-eq base over, seen-append n (map (replaced over) base) (fresh key base over))
        (ground (arith, seen-replaced n over base, seen-fresh n base over))

  last-append :
      (n : String) (xs ys : List A)
      → last_keyed n (xs ++ ys) ≡ or_else (last_keyed n ys) (last_keyed n xs)
  unfolding last_keyed
  last-append n [] ys = ground arith
  last-append n (x ∷ xs) ys = ground (arith, last-append n xs ys)

  last_unseen : (n : String) (xs : List A) → seen key n xs ≡ false → last_keyed n xs ≡ none
  unfolding last_keyed
  last_unseen n [] h = refl
  last_unseen n (x ∷ xs) h = ground (arith, last_unseen n xs)

  last-replaced :
      (n : String) (over xs : List A)
      → last_keyed n (map (replaced over) xs)
        ≡ (if seen key n xs then or_else (last_keyed n over) (last_keyed n xs) else none)
  unfolding last_keyed replaced
  last-replaced n over [] = refl
  last-replaced n over (x ∷ xs) = elim (Option-cases (key x)) [
    | inl e ↦ ground (arith, e, last-replaced n over xs, has_key-replaced n over x)
    | inr (m, e) ↦ elim (Bool-cases (str_eq m n)) [
      | inl q ↦
          let p : m ≡ n = (str_eq_iff m n).0 q in
          ground (
            arith,
            e,
            q,
            p,
            ap (λ k. last_keyed k over) p,
            last-replaced n over xs,
            last_unseen n xs,
            has_key-replaced n over x,
          )
      | inr q ↦
          ground (arith, e, q, last-replaced n over xs, last_unseen n xs, has_key-replaced n over x)
    ]
  ]

  last-fresh :
      (n : String) (base xs : List A)
      → last_keyed n (fresh key base xs) ≡ (if seen key n base then none else last_keyed n xs)
  unfolding last_keyed fresh
  last-fresh n base [] = ground arith
  last-fresh n base (x ∷ xs) = elim (Option-cases (key x)) [
    | inl e ↦ rw (e, fresh) (ground (arith, e, last-fresh n base xs))
    | inr (m, e) ↦ elim (Bool-cases (str_eq m n)) [
      | inl q ↦
          let p : m ≡ n = (str_eq_iff m n).0 q in
          ground (arith, e, q, p, ap (λ k. seen key k base) p, last-fresh n base xs)
      | inr q ↦ ground (arith, e, q, last-fresh n base xs)
    ]
  ]

  -- Under a key stands the override's last entry of that key, or else the base's.
  pub last-merge :
      (n : String) (base over : List A)
      → last_keyed n (merge key base over) ≡ or_else (last_keyed n over) (last_keyed n base)
  last-merge n base over =
      rw (merge-eq base over, last-append n (map (replaced over) base) (fresh key base over))
        (ground (arith, last-replaced n over base, last-fresh n base over, last_unseen n base))
