-- ===== src/Tests/Pseudonyms.antt =====
-- A map with one name in it, where the hash of a text is taken to be the text.
use rubez_ai.Prelude.{
  ◌≡◌, refl, ◌↔◌, false, some, [], ◌∷◌, All, Any, Text, txt, text_eq, is_prefix, contains,
}
use rubez_ai.Prelude.Int.{pos}
use rubez_ai.Prelude.Dict.{lookup, insert}
use rubez_ai.Prelude.Sort.{sort_by}
use rubez_ai.Prelude.Result.{ok}
use mathlib.Core.List.{Perm}
use rubez_ai.Sanitizer.{Entity}
use rubez_ai.Pseudonym.{PseudonymMap, raw, build_loop, build_pseudonym_map, sort_by_start}
use rubez_ai.Pseudonym.Spans.{IsSpan, Apart, build_pseudonym_map-IsSpan}
use rubez_ai.Pseudonym.Replace.{remask}
use rubez_ai.Pseudonym.Masking.{touches, Clear, contains-remask}
use rubez_ai.Pseudonym.Leak.{detect_leak, Leaks, detect_leak-Leaks}

abbrev text_hash : Text → Text
text_hash t = t

-- "Anna" stands at the runes 3 to 7.
abbrev letter : Text
letter = txt "to Anna"

abbrev person : Entity
person = record {
  type = txt "PERSON";
  category = txt "pii";
  start = pos 3;
  end = pos 7;
  pseudonym = txt "[P1]";
  raw_hash = txt "Anna";
  confidence = 0;
  detector = txt "ner";
}

abbrev names : PseudonymMap
names = record { to_raw = (txt "[P1]", txt "Anna") ∷ [] }

built : build_pseudonym_map text_hash letter (person ∷ []) ≡ ok names
unfolding txt text_eq build_pseudonym_map build_loop sort_by_start sort_by insert
built = refl

build_pseudonym_map_example :
    All (IsSpan text_hash letter) (person ∷ [])
    × Perm (sort_by_start (person ∷ [])) (person ∷ [])
    × Apart (pos 0) (sort_by_start (person ∷ []))
build_pseudonym_map_example = build_pseudonym_map-IsSpan text_hash letter (person ∷ []) names built

look : raw names (txt "[P1]") ≡ some (txt "Anna")
unfolding txt text_eq lookup
look = refl

clear : Clear (txt "Anna") (txt "[P1]")
unfolding txt touches is_prefix
clear = (refl, refl)

contains-remask_example : contains (txt "Anna") (remask names (txt "hi Anna!")) ≡ false
contains-remask_example =
    contains-remask text_hash letter (person ∷ []) names (txt "[P1]") (txt "Anna") (txt "hi Anna!")
      built look (clear, tt)

absent : contains (txt "Anna") (txt "hi all") ≡ false
unfolding txt contains is_prefix
absent = refl

detect_leak_example :
    Any (λ q. q ≡ txt "[P1]") (detect_leak text_hash text_hash names (txt "Anna"))
    ↔ Any (Leaks text_hash text_hash (txt "[P1]") (txt "Anna")) names.to_raw
detect_leak_example = detect_leak-Leaks text_hash text_hash names (txt "Anna") (txt "[P1]")
