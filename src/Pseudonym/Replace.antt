-- ===== src/Pseudonym/Replace.antt =====
-- `Restore`, `Remask` and `replace` of pseudonym.go, with `strings.NewReplacer(...).Replace`: at each
-- place of the text the first pattern that begins there is replaced, and the scan goes on behind it.
-- An empty pattern (the sanitizer never answers with an empty pseudonym) is replaced before each
-- character that is kept and at the end.
use rubez_ai.Prelude.{
  ℕ, zero, suc, ◌-◌, Bool, true, false, not, ◌&&◌, Option, none, some, List, [], ◌∷◌, ◌++◌, map,
  ltb, ◌==◌, if◌then◌else◌, length, Text, is_empty, is_prefix, byte_len, text_lt,
}
use rubez_ai.Prelude.Sort.{sort_by}
use rubez_ai.Prelude.Dict.{Dict}
use rubez_ai.Pseudonym.{PseudonymMap}

pub record Pair : Type 0 where
  pub from : Text
  pub to : Text

-- Longer patterns first, by their bytes, then in the order of texts.
abbrev pub pair_less : Pair → Pair → Bool
pair_less p q =
    if byte_len p.from == byte_len q.from
    then text_lt p.from q.from
    else ltb (byte_len q.from) (byte_len p.from)

abbrev pub pair_of : Bool → Text × Text → Pair
pair_of mask (pseudonym, raw) =
    if mask then record { from = raw; to = pseudonym } else record { from = pseudonym; to = raw }

-- The first pattern, other than the empty one, with which the text begins.
unfoldable pub find_match : List Pair → Text → Option Pair
find_match [] s = none
find_match (p ∷ ps) s =
    if not (is_empty p.from) && is_prefix p.from s then some p else find_match ps s

-- What replaces the empty pattern, if there is one.
unfoldable pub at_gap : List Pair → Text
at_gap [] = []
at_gap (p ∷ ps) = if is_empty p.from then p.to else at_gap ps

-- `skip` characters of a replaced pattern are still to be passed.
unfoldable pub scan : List Pair → ℕ → Text → Text
unfolding find_match at_gap
scan ps skip [] = at_gap ps
scan ps (suc skip) (c ∷ s) = scan ps skip s
scan ps zero (c ∷ s) = elim (find_match ps (c ∷ s)) [
  | none ↦ at_gap ps ++ c ∷ scan ps zero s
  | some p ↦ p.to ++ scan ps (length p.from - 1) s
]

unfoldable pub sorted_pairs : Bool → Dict Text → List Pair
unfolding sort_by
sorted_pairs mask d = sort_by pair_less (map (pair_of mask) d)

unfoldable pub replace : PseudonymMap → Bool → Text → Text
unfolding scan sorted_pairs
replace m mask text = elim (m.to_raw) [
  | [] ↦ text
  | _ ∷ _ ↦ scan (sorted_pairs mask m.to_raw) 0 text
]

unfoldable pub restore : PseudonymMap → Text → Text
unfolding replace
restore m text = replace m false text

unfoldable pub remask : PseudonymMap → Text → Text
unfolding replace
remask m text = replace m true text
