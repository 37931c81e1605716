-- ===== src/Prelude/GoLib.antt =====
-- What the sources call of Go's standard library on texts and floats: the functions whose result
-- the code only passes on are a parameter, the prefix and suffix tests are written out.
use Prim.Native.Nat.{ℕ, ◌+◌, ◌^◌, ◌-◌}
use Prim.Native.String.{String, len, slice}
use mathlib.Core.Bool.{Bool, true, false, ◌&&◌}
use mathlib.Core.Option.{Option, none, some}
use text.Mathlib.Text.{◌==◌, starts_with, find?}
use kubeport.Prelude.Tests.{ltb, leb, if◌then◌else◌}
use kubeport.Prelude.Int.{ℤ, pos, negsuc}

-- A float64: the exact value `m / 2 ^ k`, an infinity, or NaN, which every comparison refuses.
pub data Float64 : Type 0 where
  nan neg_inf pos_inf : Float64
  dyadic : ℤ → ℕ → Float64

-- x < 0
unfoldable pub lt_zero : Float64 → Bool
lt_zero nan = false
lt_zero neg_inf = true
lt_zero pos_inf = false
lt_zero (dyadic (pos m) k) = false
lt_zero (dyadic (negsuc m) k) = true

-- 0 < x
unfoldable pub gt_zero : Float64 → Bool
gt_zero nan = false
gt_zero neg_inf = false
gt_zero pos_inf = true
gt_zero (dyadic (pos m) k) = ltb 0 m
gt_zero (dyadic (negsuc m) k) = false

-- x <= 0
unfoldable pub le_zero : Float64 → Bool
le_zero nan = false
le_zero neg_inf = true
le_zero pos_inf = false
le_zero (dyadic (pos m) k) = leb m 0
le_zero (dyadic (negsuc m) k) = true

-- 1 < x
unfoldable pub gt_one : Float64 → Bool
gt_one nan = false
gt_one neg_inf = false
gt_one pos_inf = true
gt_one (dyadic (pos m) k) = ltb (2 ^ k) m
gt_one (dyadic (negsuc m) k) = false

-- strings.CutSuffix: the text before the suffix, if it ends with it.
unfoldable pub cut_suffix : String → String → Option String
cut_suffix s suffix =
    let start = len s - len suffix in
    if leb (len suffix) (len s) && slice s start (len s) == suffix
    then some (slice s 0 start)
    else none

-- strings.CutPrefix
unfoldable pub cut_prefix : String → String → Option String
cut_prefix s prefix = if starts_with s prefix then some (slice s (len prefix) (len s)) else none

-- strings.TrimPrefix
unfoldable pub trim_prefix : String → String → String
trim_prefix s front = elim (cut_prefix s front) [ none ↦ s | some rest ↦ rest ]

-- strings.Cut; strings.SplitN(s, sep, 2) has the same parts, and only one where sep is missing
unfoldable pub cut_text : String → String → String × Option String
cut_text s sep = elim (find? s sep) [
  | none ↦ (s, none)
  | some i ↦ (slice s 0 i, some (slice s (i + len sep) (len s)))
]

pub record GoLib : Type 0 where
  -- time.ParseDuration, in nanoseconds; `none` is an error
  pub parse_duration : String → Option ℤ
  -- strings.ToLower and strings.TrimSpace
  pub to_lower : String → String
  pub trim_space : String → String
  -- strconv.ParseFloat(s, 64)
  pub parse_float : String → Option Float64
  -- int64(x * float64(k))
  pub scale : Float64 → ℕ → ℤ
  -- net.SplitHostPort
  pub split_host_port : String → Option (String × String)
  -- filepath.Clean, and strings.Contains(path, "..")
  pub clean : String → String
  pub has_dot_dot : String → Bool
  -- os.UserHomeDir
  pub user_home_dir : Option String
  -- filepath.Join of two parts, filepath.IsAbs, filepath.Dir and filepath.Ext
  pub join : String → String → String
  pub is_abs : String → Bool
  pub dir : String → String
  pub ext : String → String
  -- strconv.Itoa
  pub itoa : ℤ → String
