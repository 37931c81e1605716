-- ===== src/Prelude/Prefix.antt =====
-- What strings.CutPrefix leaves.
use Prim.Native.String.{String, ◌++◌}
use mathlib.Core.Path.{◌≡◌, refl, sym, ap, ◌∙◌}
use mathlib.Core.Logic.{inl, inr}
use mathlib.Core.Option.{some}
use native.Mathlib.Omega.{arith}
use text.Mathlib.Text.{starts_with}
use text.Mathlib.TextEquality.{starts_with_iff}
use text.Mathlib.TextPositions.{starts_with-append, slice-append_right, len-append}
use kubeport.Prelude.Tests.{Bool-cases}
use kubeport.Prelude.GoLib.{cut_prefix}

pub cut_prefix-append : (front rest : String) → cut_prefix (front ++ rest) front ≡ some rest
unfolding cut_prefix
cut_prefix-append front rest =
    rw (starts_with-append front rest, len-append front rest, slice-append_right front rest) refl

-- a prefix that is cut is there
pub cut_prefix-some : (s front rest : String) → cut_prefix s front ≡ some rest → s ≡ front ++ rest
unfolding cut_prefix
cut_prefix-some s front rest cut = elim (Bool-cases (starts_with s front)) [
  | inl begins ↦
      let (tail, joined) = (starts_with_iff s front).0 begins in
      let same : some tail ≡ some rest =
        sym (cut_prefix-append front tail) ∙ ap (λ t. cut_prefix t front) joined ∙ cut in
      let equal : tail ≡ rest = cc in sym joined ∙ ap (λ t. front ++ t) equal
  | inr other ↦ absurd (ground (arith, cut, other))
]
