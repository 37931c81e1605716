-- ===== src/Cli/Flags.antt =====
-- Where a flag may stand on the command line.
use Prim.Native.String.{◌++◌ as ◌++ₛ◌}
use text.Mathlib.Text.{starts_with}
use text.Mathlib.TextEquality.{starts_with_iff}
use text.Mathlib.TextLemmas.{append_assoc}
use kubeport.Prelude.{
  ◌≡◌, refl, sym, ap, ◌∙◌, String, Bool, true, false, ◌&&◌, none, some, List, [], ◌∷◌, ◌++◌,
  if◌then◌else◌, arith, str_eq_iff, Option-cases, inl, inr,
}
use kubeport.Prelude.GoLib.{GoLib, cut_prefix}
use kubeport.Prelude.Prefix.{cut_prefix-some}
use kubeport.Prelude.Table.{Table, lookup}
use kubeport.Prelude.Result.{Result-cases}
use kubeport.Config.{is_empty}
use kubeport.Cli.{
  Valued, valued_flags, assigned_flags, switches, assigned_in, set_value, Parsed, add_word,
  parse_one, parse_each,
}

abbrev all_dashed {ℓ} : {V : Type ℓ} → Table V → Bool
all_dashed [] = true
all_dashed ((name, v) ∷ rest) = starts_with name "-" && all_dashed rest

-- what begins with a text that begins with a dash does too
starts_with-append-dash :
    (front rest : String) → starts_with front "-" ≡ true → starts_with (front ++ₛ rest) "-" ≡ true
starts_with-append-dash front rest dashed =
    let (tail, joined) = (starts_with_iff front "-").0 dashed in
    (starts_with_iff (front ++ₛ rest) "-").1
      (tail ++ₛ rest, sym (append_assoc "-" tail rest) ∙ ap (λ s. s ++ₛ rest) joined)

lookup-word {ℓ} :
    {V : Type ℓ} (table : Table V) (word : String)
    → all_dashed table ≡ true
    → starts_with word "-" ≡ false
    → lookup word table ≡ none
unfolding lookup
lookup-word [] word dashed plain = refl
lookup-word ((name, v) ∷ rest) word dashed plain =
    ground (
      arith,
      dashed,
      plain,
      lookup-word rest word,
      str_eq_iff name word,
      ap (λ s. starts_with s "-"),
    )

assigned_in-word :
    (table : Table Valued) (word : String)
    → all_dashed table ≡ true
    → starts_with word "-" ≡ false
    → assigned_in table word ≡ none
unfolding assigned_in
assigned_in-word [] word dashed plain = refl
assigned_in-word ((front, flag) ∷ rest) word dashed plain =
    elim (Option-cases (cut_prefix word front)) [
      | inl other ↦ ground (arith, other, dashed, assigned_in-word rest word)
      | inr (value, cut) ↦ absurd (
          ground (
            arith,
            dashed,
            plain,
            ap (λ s. starts_with s "-") (cut_prefix-some word front value cut),
            starts_with-append-dash front value,
          ))
    ]

abbrev with_word : String → Parsed → Parsed
with_word word p =
    if is_empty p.command
    then record p { command = word }
    else record p { remaining = p.remaining ++ word ∷ [] }

parse_each-word :
    (lib : GoLib) (word : String) (rest : List String) (p : Parsed)
    → starts_with word "-" ≡ false
    → parse_each lib (word ∷ rest) p ≡ parse_each lib rest (with_word word p)
unfolding parse_each parse_one add_word
parse_each-word lib word [] p plain = ground (
  arith,
  plain,
  lookup-word valued_flags word refl plain,
  assigned_in-word assigned_flags word refl plain,
  lookup-word switches word refl plain,
)
parse_each-word lib word (next ∷ rest) p plain = ground (
  arith,
  plain,
  lookup-word valued_flags word refl plain,
  assigned_in-word assigned_flags word refl plain,
  lookup-word switches word refl plain,
)

-- A flag and its value may stand before or after an argument that does not begin with a dash: the
-- settings, the command, the arguments and the error are the same.
pub parse_each-swap :
    (lib : GoLib) (p : Parsed) (name value word : String) (flag : Valued) (rest : List String)
    → lookup name valued_flags ≡ some flag
    → starts_with word "-" ≡ false
    → parse_each lib (name ∷ value ∷ word ∷ rest) p ≡ parse_each lib (word ∷ name ∷ value ∷ rest) p
unfolding parse_each
parse_each-swap lib p name value word flag rest named plain =
    elim (Result-cases (set_value lib flag value p.app)) [
      | inl (e, failed) ↦
          ground (arith, named, failed, parse_each-word lib word (name ∷ value ∷ rest) p plain)
      | inr (a, set) ↦ ground (
        arith,
        named,
        set,
        parse_each-word lib word (name ∷ value ∷ rest) p plain,
        parse_each-word lib word rest (record p { app = a }) plain,
      )
    ]
