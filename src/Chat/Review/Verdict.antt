-- ===== src/Chat/Review/Verdict.antt =====
-- The verdict of a reviewing model: `parseReviewVerdict` and what it calls, in
-- rubezh-api/internal/chat/orchestrator_review.go. `unmarshal` is `json.Unmarshal` into a verdict,
-- `none` if it fails, and `to_lower` follows the Unicode tables.
use rubez_ai.Prelude.{
  ℕ, ◌≡◌, inl, inr, Bool, true, false, not, ◌&&◌, ◌||◌, Option, none, some, List, [], ◌∷◌, ◌++◌,
  arith, leb, ◌==◌, if◌then◌else◌, Bool-cases, length, take, Text, txt, text_eq, is_empty,
  is_prefix, trim_space,
}

pub record ReviewVerdict : Type 0 where
  pub ok : Bool
  pub issues : List Text
  pub comment : Text

pub record ReviewFinding : Type 0 where
  pub provider : Text
  pub issues : List Text

abbrev pub accepted : ReviewVerdict
accepted = record { ok = true; issues = []; comment = [] }

abbrev pub rejected : List Text → ReviewVerdict
rejected issues = record { ok = false; issues = issues; comment = [] }

abbrev pub max_issue_runes : ℕ
max_issue_runes = 900

unfoldable pub trim_issue : Text → Text
trim_issue issue =
    let t = trim_space issue in
    if leb (length t) max_issue_runes then t else trim_space (take max_issue_runes t) ++ txt "..."

-- The loop over the issues: those that are not blank.
unfoldable pub trim_issues : List Text → List Text
unfolding trim_issue
trim_issues [] = []
trim_issues (issue ∷ issues) =
    let t = trim_space issue in
    let rest = trim_issues issues in if is_empty t then rest else trim_issue t ∷ rest

abbrev pub is_nil : List Text → Bool
is_nil [] = true
is_nil (_ ∷ _) = false

unfoldable pub normalize_review_verdict : ReviewVerdict → ReviewVerdict
unfolding trim_issues
normalize_review_verdict v =
    if v.ok
    then accepted
    else let issues = trim_issues v.issues in
      if not (is_nil issues)
      then rejected issues
      else if not (is_empty (trim_space v.comment))
      then rejected (trim_issue v.comment ∷ [])
      else rejected (txt "ревизор не подтвердил ответ и не перечислил замечания" ∷ [])

-- `strings.Split(s, "\n")`: `line` is the line so far, reversed.
unfoldable pub split_lines : Text → Text → List Text
split_lines line [] = mathlib.Core.List.reverse line ∷ []
split_lines line (c ∷ s) =
    let next = mathlib.Core.List.reverse line ∷ split_lines [] s in
    let more = split_lines (c ∷ line) s in if c == 10 then next else more

unfoldable pub join_lines : List Text → Text
join_lines [] = []
join_lines (l ∷ []) = l
join_lines (l ∷ k ∷ ls) = l ++ (10 ∷ join_lines (k ∷ ls))

-- The lines without the last, if that is a fence.
unfoldable pub drop_last_fence : List Text → List Text
drop_last_fence [] = []
drop_last_fence (l ∷ []) = if is_prefix (txt "```") (trim_space l) then [] else l ∷ []
drop_last_fence (l ∷ k ∷ ls) = l ∷ drop_last_fence (k ∷ ls)

-- All lines but the first, if there are two.
abbrev pub drop_first : List Text → List Text
drop_first (l ∷ k ∷ ls) = k ∷ ls
drop_first ls = ls

unfoldable pub strip_json_fence : Text → Text
unfolding split_lines join_lines drop_last_fence
strip_json_fence s =
    let t = trim_space s in
    if is_prefix (txt "```") t
    then trim_space (join_lines (drop_last_fence (drop_first (split_lines [] t))))
    else t

-- From the first opening brace on.
unfoldable pub from_brace : Text → Text
from_brace [] = []
from_brace (c ∷ s) = let rest = from_brace s in if c == b'{' then c ∷ s else rest

-- Up to the last closing brace; empty if there is none.
unfoldable pub up_to_brace : Text → Text
up_to_brace [] = []
up_to_brace (c ∷ s) =
    let rest = up_to_brace s in
    if is_empty rest then (if c == b'}' then c ∷ [] else []) else c ∷ rest

unfoldable pub extract_json_object : Text → Text
unfolding from_brace up_to_brace
extract_json_object s = up_to_brace (from_brace s)

-- The cutset of `strings.Trim`.
abbrev pub in_cutset : ℕ → Bool
in_cutset c = c == b' ' || c == 9 || c == 13 || c == 10 || c == b'.' || c == b'!' || c == b'?'

unfoldable pub cut_left : Text → Text
cut_left [] = []
cut_left (c ∷ s) = let rest = cut_left s in if in_cutset c then rest else c ∷ s

unfoldable pub cut_right : Text → Text
cut_right [] = []
cut_right (c ∷ s) = let rest = cut_right s in if in_cutset c && is_empty rest then [] else c ∷ rest

normalized_issues :
    (v : ReviewVerdict)
    → is_nil (normalize_review_verdict v).issues ≡ (normalize_review_verdict v).ok
unfolding normalize_review_verdict
normalized_issues v = ground arith

module _ (to_lower : Text → Text) (unmarshal : Text → Option ReviewVerdict) where
  -- The reading of an answer that is no JSON verdict.
  unfoldable pub plain_verdict : Text → ReviewVerdict
  unfolding cut_left cut_right trim_issue
  plain_verdict clean =
      let lower = to_lower (cut_right (cut_left clean)) in
      if text_eq lower (txt "ok") || text_eq lower (txt "ок") || text_eq lower (txt "okay")
      then accepted
      else if is_empty clean
      then rejected (trim_issue (txt "ревизор не вернул JSON-вердикт") ∷ [])
      else rejected (trim_issue clean ∷ [])

  unfoldable pub parse_review_verdict : Text → ReviewVerdict
  unfolding strip_json_fence extract_json_object normalize_review_verdict plain_verdict
  parse_review_verdict content =
      let clean = trim_space (strip_json_fence content) in
      let obj = extract_json_object clean in
      if is_empty obj
      then plain_verdict clean
      else elim (unmarshal obj) [ some v ↦ normalize_review_verdict v | none ↦ plain_verdict clean ]

  plain_issues : (clean : Text) → is_nil (plain_verdict clean).issues ≡ (plain_verdict clean).ok
  unfolding plain_verdict
  plain_issues clean = ground arith

  parsed_issues :
      (clean : Text) (o : Option ReviewVerdict)
      → let v : ReviewVerdict = elim o [
        | some v ↦ normalize_review_verdict v
        | none ↦ plain_verdict clean
      ] in
        is_nil v.issues ≡ v.ok
  parsed_issues clean none = plain_issues clean
  parsed_issues clean (some v) = normalized_issues v

  -- A verdict that does not accept the draft names at least one issue, and one that does names none,
  -- whatever the reviewing model answered.
  parse_review_verdict-issues :
      (content : Text)
      → is_nil (parse_review_verdict content).issues ≡ (parse_review_verdict content).ok
  unfolding parse_review_verdict
  parse_review_verdict-issues content =
      let clean = trim_space (strip_json_fence content) in
      let obj = extract_json_object clean in
      elim (Bool-cases (is_empty obj)) [
        | inl e ↦ rw e (plain_issues clean)
        | inr e ↦ rw e (parsed_issues clean (unmarshal obj))
      ]
