-- ===== src/Pseudonym.antt =====
-- The map from pseudonyms to raw values, and the replacement in both directions:
-- rubezh-api/internal/chat/pseudonym.go. `hash` is the hexadecimal SHA-256 of a text's bytes.
pub mod Spans
pub mod Replace
pub mod Masking
pub mod Leak
use rubez_ai.Prelude.{
  ℕ, zero, suc, ◌+◌, ◌-◌, ◌*◌, ◌/◌, ◌%◌, ◌≤◌, ◌<◌, min, String, ◌≡◌, refl, sym, ap, ◌∙◌, subst, ◌≢◌,
  ◌↔◌, ◌⊎◌, inl, inr, Bool, true, false, not, ◌&&◌, ◌||◌, Option, none, some, List, [], ◌∷◌, ◌++◌,
  map, arith, ltb, leb, ◌==◌, if◌then◌else◌, ltb→lt, lt→ltb, leb→le, ==_iff, tests, Bool-cases,
  Option-cases, length, take, drop, length-append, take-append-drop, length-take, length-drop, All,
  Any, here, there, All-append, Text, txt, text_eq, is_empty, is_prefix, contains, rune_bytes,
  byte_len, text_lt, is_space, trim_left, trim_right, trim_space, text_eq_iff, text_eq_refl,
}
use rubez_ai.Prelude.Int.{ℤ, pos, negsuc, ltb_ℤ, leb_ℤ}
use rubez_ai.Prelude.Dict.{Dict, lookup, insert}
use rubez_ai.Prelude.Result.{Result, ok, err}
use rubez_ai.Prelude.Sort.{sort_by}
use rubez_ai.Sanitizer.{Entity}

-- Pseudonym to raw value.
pub record PseudonymMap : Type 0 where
  pub to_raw : Dict Text

abbrev pub empty_map : PseudonymMap
empty_map = record { to_raw = [] }

abbrev pub len : PseudonymMap → ℕ
len m = length m.to_raw

abbrev pub raw : PseudonymMap → Text → Option Text
raw m pseudonym = lookup pseudonym m.to_raw

-- The three errors of `BuildPseudonymMap`, with the numbers that their messages print.
pub data MapError : Type 0 where
  out_of_bounds : Text → ℤ → ℤ → ℕ → MapError
  overlap : Text → ℤ → ℤ → ℤ → MapError
  hash_mismatch : Text → MapError

abbrev pub starts_before : Entity → Entity → Bool
starts_before e f = ltb_ℤ e.start f.start

unfoldable pub sort_by_start : List Entity → List Entity
unfolding sort_by
sort_by_start es = sort_by starts_before es

abbrev pub index : ℤ → ℕ
index (pos n) = n
index (negsuc n) = 0

-- `runes[e.Start:e.End]`, reached only with both ends in range.
abbrev pub slice : Text → Entity → Text
slice text e = take (index e.end - index e.start) (drop (index e.start) text)

module _ (hash : Text → Text) (text : Text) where
  -- The loop over the sorted entities: the end of the span before, and the map so far.
  unfoldable pub build_loop : ℤ → Dict Text → List Entity → Result MapError PseudonymMap
  build_loop prev_end to_raw [] = ok (record { to_raw = to_raw })
  build_loop prev_end to_raw (e ∷ es) =
      let rest = build_loop e.end (insert e.pseudonym (slice text e) to_raw) es in
      if ltb_ℤ e.start (pos 0) || leb_ℤ e.end e.start || ltb_ℤ (pos (length text)) e.end
      then err (out_of_bounds e.type e.start e.end (length text))
      else if ltb_ℤ e.start prev_end
      then err (overlap e.type e.start e.end prev_end)
      else if text_eq (hash (slice text e)) e.raw_hash
      then rest
      else err (hash_mismatch e.type)

  unfoldable pub build_pseudonym_map : List Entity → Result MapError PseudonymMap
  unfolding build_loop sort_by_start
  build_pseudonym_map entities = build_loop (pos 0) [] (sort_by_start entities)
