-- ===== src/Config/Keyed/Assoc.antt =====
-- Merging keyed lists is associative, so an inheritance chain may be folded from either end.
use mathlib.Core.List.{map-append, append_assoc}
use mathlib.Core.Path.{◌≡⟨◌⟩◌, ◌∎}
use kubeport.Prelude.{
  String, ◌≡◌, refl, sym, ap, ◌∙◌, Option, none, some, List, [], ◌∷◌, ◌++◌, map, arith,
  Option-cases, inl, inr,
}
use kubeport.Config.Keyed.{fresh, merge}
use kubeport.Config.Keyed.Laws.{
  or_else, replaced, last_keyed, merge-eq, key-replaced, last-merge, seen-merge,
}

abbrev or_self {ℓ} : {A : Type ℓ} → Option A → A → A
or_self none x = x
or_self (some y) x = y

or_self-or_else {ℓ} :
    {A : Type ℓ} (p q : Option A) (x : A) → or_self p (or_self q x) ≡ or_self (or_else p q) x
or_self-or_else p q x = ground arith

module _ {A : Type 0} (key : A → Option String) where
  replaced_keyless : (over : List A) (x : A) → key x ≡ none → replaced key over x ≡ x
  unfolding replaced
  replaced_keyless over x e = rw (e, replaced)

  replaced_keyed :
      (n : String) (over : List A) (x : A)
      → key x ≡ some n
      → replaced key over x ≡ or_self (last_keyed key n over) x
  unfolding replaced
  replaced_keyed n over x e = ground (arith, e)

  replaced-replaced :
      (b c : List A) (x : A) → replaced key c (replaced key b x) ≡ replaced key (merge key b c) x
  replaced-replaced b c x = elim (Option-cases (key x)) [
    | inl e ↦
        rw (replaced_keyless b x e, replaced_keyless c x e, replaced_keyless (merge key b c) x e)
          refl
    | inr (n, e) ↦
        rw
          (
            replaced_keyed n c (replaced key b x) (key-replaced key b x ∙ e),
            replaced_keyed n b x e,
            replaced_keyed n (merge key b c) x e,
            last-merge key n b c,
          )
          (or_self-or_else (last_keyed key n c) (last_keyed key n b) x)
  ]

  map-replaced :
      (b c xs : List A)
      → map (replaced key c) (map (replaced key b) xs) ≡ map (replaced key (merge key b c)) xs
  map-replaced b c [] = refl
  map-replaced b c (x ∷ xs) = cc (replaced-replaced b c x, map-replaced b c xs)

  fresh-append :
      (base xs ys : List A) → fresh key base (xs ++ ys) ≡ fresh key base xs ++ fresh key base ys
  unfolding fresh
  fresh-append base [] ys = refl
  fresh-append base (x ∷ xs) ys = elim (Option-cases (key x)) [
    | inl e ↦ rw (e, fresh) (ap (◌∷◌ x) (fresh-append base xs ys))
    | inr (n, e) ↦ ground (arith, e, fresh-append base xs ys)
  ]

  fresh-map-replaced :
      (base over xs : List A)
      → fresh key base (map (replaced key over) xs) ≡ map (replaced key over) (fresh key base xs)
  unfolding fresh
  fresh-map-replaced base over [] = refl
  fresh-map-replaced base over (x ∷ xs) = elim (Option-cases (key x)) [
    | inl e ↦ ground (arith, e, key-replaced key over x, fresh-map-replaced base over xs)
    | inr (n, e) ↦ ground (arith, e, key-replaced key over x, fresh-map-replaced base over xs)
  ]

  fresh-fresh : (a b xs : List A) → fresh key a (fresh key b xs) ≡ fresh key (merge key a b) xs
  unfolding fresh
  fresh-fresh a b [] = refl
  fresh-fresh a b (x ∷ xs) = elim (Option-cases (key x)) [
    | inl e ↦ ground (arith, e, fresh-fresh a b xs)
    | inr (n, e) ↦ ground (arith, e, seen-merge key n a b, fresh-fresh a b xs)
  ]

  tail :
      (a b c : List A)
      → map (replaced key c) (fresh key a b) ++ fresh key (merge key a b) c
        ≡ fresh key a (merge key b c)
  tail a b c =
      rw
        (
          merge-eq key b c,
          fresh-append a (map (replaced key c) b) (fresh key b c),
          fresh-map-replaced a c b,
          fresh-fresh a b c,
        )
        refl

  -- Merging three keyed lists gives the same list from either end.
  pub merge_assoc : (a b c : List A) → merge key (merge key a b) c ≡ merge key a (merge key b c)
  merge_assoc a b c =
      merge key (merge key a b) c
      ≡⟨ merge-eq key (merge key a b) c ⟩
        map (replaced key c) (merge key a b) ++ fresh key (merge key a b) c
      ≡⟨ ap (λ l. map (replaced key c) l ++ fresh key (merge key a b) c) (merge-eq key a b) ⟩
        map (replaced key c) (map (replaced key b) a ++ fresh key a b)
        ++ fresh key (merge key a b) c
      ≡⟨ (simp (map-append, append_assoc, map-replaced b c a)) ⟩
        map (replaced key (merge key b c)) a
        ++ (map (replaced key c) (fresh key a b) ++ fresh key (merge key a b) c)
      ≡⟨ ap (λ l. map (replaced key (merge key b c)) a ++ l) (tail a b c) ⟩
        map (replaced key (merge key b c)) a ++ fresh key a (merge key b c)
      ≡⟨ sym (merge-eq key a (merge key b c)) ⟩ merge key a (merge key b c) ∎
