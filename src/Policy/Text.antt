-- ===== src/Policy/Text.antt =====
-- What the policy uses of string.h and strings.h, on the bytes of a string.
use Prim.Native.Char
use Prim.Native.String.{String}
use opentherm_thermostat_fir.Prelude.{
  ℕ, ◌+◌, Bool, true, false, ◌&&◌, ◌==◌, leb, List, [], ◌∷◌, if◌then◌else◌,
}

abbrev pub bytes : String → List ℕ
bytes String.[] = []
bytes (String.◌∷◌ c s) = Char.code c ∷ bytes s

-- strcmp() == 0.
unfoldable pub same : List ℕ → List ℕ → Bool
same [] [] = true
same [] (b ∷ bs) = false
same (a ∷ cs) [] = false
same (a ∷ cs) (b ∷ bs) = let rest = same cs bs in a == b && rest

-- strncmp() over the length of the second string, which is the first argument here, and what
-- follows in the first: none where they differ.
unfoldable pub after_prefix : (ℕ → ℕ) → List ℕ → List ℕ → Bool × List ℕ
after_prefix fold_case [] text = (true, text)
after_prefix fold_case (p ∷ ps) [] = (false, [])
after_prefix fold_case (p ∷ ps) (c ∷ cs) =
    let rest = after_prefix fold_case ps cs in if fold_case c == p then rest else (false, [])

-- tolower() of the C locale, by which strncasecmp() compares.
unfoldable pub to_lower : ℕ → ℕ
to_lower c = if leb b'A' c && leb c b'Z' then c + 32 else c

abbrev pub as_is : ℕ → ℕ
as_is c = c
