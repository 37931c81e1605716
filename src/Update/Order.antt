-- ===== src/Update/Order.antt =====
-- The order of versions.
use kubeport.Prelude.{◌≡◌, true, false, arith}
use kubeport.Update.{Version, is_newer}

-- isNewer is a strict order in which two versions are apart exactly if one of their three numbers
-- is: no version is newer than itself, a newer one than a newer one is newer, and two versions of
-- which neither is newer have the same numbers.
pub is_newer-strict :
    (a b c : Version)
    → (is_newer a a ≡ false)
      × (is_newer a b ≡ true → is_newer b c ≡ true → is_newer a c ≡ true)
      × (is_newer a b ≡ false
          → is_newer b a ≡ false
          → (a.major ≡ b.major) × (a.minor ≡ b.minor) × (a.patch ≡ b.patch))
unfolding is_newer
is_newer-strict a b c =
    (ground arith, (λ ab bc. ground (arith, ab, bc)), (λ ab ba. ground (arith, ab, ba)))
