-- ===== src/Registry/Options.antt =====
-- The options of an enum against the splitting of its text.
use opentherm_thermostat_fir.Prelude.{
  ℕ, zero, suc, ◌+◌, ◌%◌, ◌<◌, ◌≡◌, ◌≢◌, ◌↔◌, ◌==◌, ◌∙◌, refl, ap, arith, length, drop, List, [],
  ◌∷◌, Option, none, some, if◌then◌else◌,
}
use opentherm_thermostat_fir.Frame.Numbers.{Numbers}
use opentherm_thermostat_fir.Registry.Types.{Entity, EntityKind, option_sep}
use opentherm_thermostat_fir.Registry.Lookup.{
  get_elem?, separators, strchr, skip_options, upto_sep, option, option_count,
}

-- The text before the first separator and the texts between the others.
unfoldable pub split : List ℕ → List ℕ × List (List ℕ)
split [] = ([], [])
split (c ∷ cs) =
    let (word, words) = split cs in
    if c == option_sep then ([], word ∷ words) else (c ∷ word, words)

abbrev pub split_options : List ℕ → List (List ℕ)
split_options text = (split text).0 ∷ (split text).1

upto_sep-split : (text : List ℕ) → upto_sep text ≡ (split text).0
unfolding upto_sep split
upto_sep-split [] = refl
upto_sep-split (c ∷ cs) = ground (arith, upto_sep-split cs)

separators-split : (text : List ℕ) → length (split text).1 ≡ separators text
unfolding separators split
separators-split [] = refl
separators-split (c ∷ cs) = ground (arith, separators-split cs)

abbrev pub split_after : Option (List ℕ) → List (List ℕ)
split_after none = []
split_after (some found) = split_options (drop 1 found)

strchr-split : (text : List ℕ) → (split text).1 ≡ split_after (strchr text option_sep)
unfolding strchr split
strchr-split [] = refl
strchr-split (c ∷ cs) = ground (arith, strchr-split cs)

abbrev pub word_at : Option (List ℕ) → Option (List ℕ)
word_at none = none
word_at (some p) = some (upto_sep p)

after_separator :
    (index : ℕ) (found : Option (List ℕ))
    → ((t : List ℕ) → word_at (skip_options index t) ≡ get_elem? (split_options t) index)
    → word_at (elim found [ none ↦ none | some rest ↦ skip_options index (drop 1 rest) ])
      ≡ get_elem? (split_after found) index
unfolding get_elem?
after_separator index none h = refl
after_separator index (some rest) h = h (drop 1 rest)

skip_options-split :
    (index : ℕ) (text : List ℕ)
    → word_at (skip_options index text) ≡ get_elem? (split_options text) index
unfolding skip_options get_elem?
skip_options-split zero text = ap some (upto_sep-split text)
skip_options-split (suc index) text =
    rw (strchr-split text)
      (after_separator index (strchr text option_sep) (λ t. skip_options-split index t))

get_elem?-length {ℓ} :
    {A : Type ℓ} (xs : List A) (i : ℕ) → (get_elem? xs i ≢ none) ↔ (i < length xs)
unfolding get_elem?
get_elem?-length [] i = ground arith
get_elem?-length (x ∷ xs) zero = ground arith
get_elem?-length (x ∷ xs) (suc i) = ground (arith, get_elem?-length xs i)

words :
    (found : Option (List ℕ))
    → elim found [ none ↦ none | some p ↦ some (upto_sep p) ] ≡ word_at found
words none = refl
words (some p) = refl

module _ {fl : Numbers} where
  option-split :
      (e : Entity fl) (text : List ℕ) (index : ℕ)
      → e.kind ≡ EntityKind.enum
      → e.options ≡ some text
      → option e index ≡ word_at (skip_options index text)
  unfolding option
  option-split e text index k o = rw (k, o) (words (skip_options index text))

  count-split :
      (e : Entity fl) (text : List ℕ)
      → e.kind ≡ EntityKind.enum
      → e.options ≡ some text
      → option_count e ≡ (1 + separators text) % 256
  unfolding option_count
  count-split e text k o = rw (k, o) refl

  -- An option is the part of the text between its separators: for an enum with fewer than 256
  -- options, ot_registry_option() gives the index-th part of the text split at the separators,
  -- there are as many as ot_registry_option_count() says, and there is one at an index exactly
  -- when the index is below that count.
  pub option_splits :
      (e : Entity fl) (text : List ℕ) (index : ℕ)
      → e.kind ≡ EntityKind.enum
      → e.options ≡ some text
      → length (split_options text) < 256
      → (option e index ≡ get_elem? (split_options text) index)
        × (option_count e ≡ length (split_options text))
        × ((option e index ≢ none) ↔ (index < option_count e))
  option_splits e text index k o few =
      let same : option e index ≡ get_elem? (split_options text) index =
        option-split e text index k o ∙ skip_options-split index text in
      let count : option_count e ≡ length (split_options text) =
        omega (arith, count-split e text k o, separators-split text, few) in
      (same, count, rw (same, count) (get_elem?-length (split_options text) index))
