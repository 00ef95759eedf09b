-- ===== src/Chat/Review/Attachments.antt =====
-- The files of an answer, as a reviewing model sees them: review_attachments.go, and
-- `parseAttachmentBlock`, `describeAttachmentsForReviewer`, `splitModelAttachmentBlock` and
-- `joinModelAttachmentBlock` of orchestrator_review.go.
use rubez_ai.Prelude.{
  ℕ, suc, ◌*◌, ◌/◌, Bool, false, ◌&&◌, ◌||◌, Option, none, some, List, [], ◌∷◌, ◌++◌, map, ltb, leb,
  ◌==◌, if◌then◌else◌, length, take, Text, txt, text_eq, is_empty, is_prefix, byte_len, trim_space,
}
use rubez_ai.Prelude.Int.{ℤ, pos, negsuc, sub_ℕ}
use rubez_ai.Chat.Rag.{decimal}
use rubez_ai.Chat.Review.Verdict.{split_lines}

pub record ReviewAttachment : Type 0 where
  pub name : Text
  pub mime : Text
  pub size_bytes : ℤ
  pub text_preview : Text

abbrev pub max_attachment_block_bytes : ℕ
max_attachment_block_bytes = 8 * 1024 * 1024

-- `strings.HasSuffix`
unfoldable pub is_suffix : Text → Text → Bool
is_suffix p [] = text_eq p []
is_suffix p (c ∷ s) = text_eq p (c ∷ s) || is_suffix p s

-- A base64 text is ASCII.
unfoldable pub approx_base64_bytes_len : Text → ℤ
unfolding is_suffix
approx_base64_bytes_len b64 =
    if is_empty b64
    then pos 0
    else sub_ℕ (length b64 / 4 * 3)
        (if is_suffix (txt "==") b64 then 2 else if is_suffix (txt "=") b64 then 1 else 0)

abbrev pub text_mime_prefixes : List Text
text_mime_prefixes =
    txt "text/"
    ∷ txt "application/json"
    ∷ txt "application/xml"
    ∷ txt "application/yaml"
    ∷ txt "application/x-yaml"
    ∷ txt "application/sql"
    ∷ []

abbrev pub text_extensions : List Text
text_extensions =
    txt ".csv"
    ∷ txt ".tsv"
    ∷ txt ".txt"
    ∷ txt ".md"
    ∷ txt ".json"
    ∷ txt ".yaml"
    ∷ txt ".yml"
    ∷ txt ".xml"
    ∷ txt ".html"
    ∷ txt ".htm"
    ∷ txt ".sql"
    ∷ txt ".py"
    ∷ txt ".js"
    ∷ txt ".ts"
    ∷ txt ".go"
    ∷ txt ".sh"
    ∷ txt ".env"
    ∷ txt ".log"
    ∷ []

unfoldable pub any_prefix : List Text → Text → Bool
any_prefix [] s = false
any_prefix (p ∷ ps) s = is_prefix p s || any_prefix ps s

unfoldable pub any_eq : List Text → Text → Bool
any_eq [] s = false
any_eq (p ∷ ps) s = text_eq p s || any_eq ps s

-- From the last dot on; `none` if there is none.
unfoldable pub extension : Text → Option Text
extension [] = none
extension (c ∷ s) =
    let rest = extension s in
    elim rest [ some e ↦ some e | none ↦ if c == b'.' then some (c ∷ s) else none ]

abbrev pub extension_listed : Option Text → Bool
extension_listed none = false
extension_listed (some e) = any_eq text_extensions e

unfoldable pub is_text_mime_for_review : (Text → Text) → Text → Text → Bool
unfolding any_prefix any_eq extension
is_text_mime_for_review to_lower mime filename =
    any_prefix text_mime_prefixes (to_lower mime)
    || extension_listed (extension (to_lower filename))

unfoldable pub drop_breaks : Text → Text
drop_breaks [] = []
drop_breaks (c ∷ s) =
    let rest = drop_breaks s in if c == 10 || c == 13 || c == b' ' || c == 9 then rest else c ∷ rest

unfoldable pub limit_runes : Text → ℕ → Text
limit_runes s max =
    if max == 0 then [] else if leb (length s) max then s else take max s ++ txt "..."

-- `links` is `FindAllStringSubmatch` of the link expression: name, mime type and base64 text of each
-- match; `base64_decode` is `base64.StdEncoding.DecodeString`, `none` if it fails.
module _ (to_lower : Text → Text) (links : Text → List (Text × Text × Text))
    (base64_decode : Text → Option Text) where
  unfoldable pub preview_of : Text → Text → Text → Text
  unfolding is_text_mime_for_review drop_breaks limit_runes
  preview_of name mime b64 =
      if is_text_mime_for_review to_lower mime name
      then elim (base64_decode (drop_breaks b64)) [ none ↦ [] | some raw ↦ limit_runes raw 2048 ]
      else []

  unfoldable pub attachment_of : Text × Text × Text → ReviewAttachment
  unfolding preview_of approx_base64_bytes_len
  attachment_of (m1, m2, m3) =
      let name = trim_space m1 in
      let mime = trim_space m2 in
      let b64 = trim_space m3 in
      record {
        name = name;
        mime = mime;
        size_bytes = approx_base64_bytes_len b64;
        text_preview = preview_of name mime b64;
      }

  unfoldable pub parse_attachment_block : Text → List ReviewAttachment
  unfolding attachment_of
  parse_attachment_block block =
      if is_empty block
      then []
      else if ltb max_attachment_block_bytes (byte_len block)
      then []
      else map attachment_of (links block)

-- `%d` of a signed number.
abbrev pub decimal_ℤ : ℤ → Text
decimal_ℤ (pos n) = decimal n
decimal_ℤ (negsuc n) = b'-' ∷ decimal (suc n)

unfoldable pub indent_lines : List Text → Text
indent_lines [] = []
indent_lines (l ∷ ls) = txt "  " ++ (l ++ (10 ∷ indent_lines ls))

unfoldable pub describe_loop : List ReviewAttachment → Text
unfolding indent_lines
describe_loop [] = []
describe_loop (a ∷ atts) =
    txt "- "
    ++ (a.name
        ++ (txt " ("
            ++ (a.mime
                ++ (txt ", "
                    ++ (decimal_ℤ a.size_bytes
                        ++ (txt " B)\n"
                            ++ ((if is_empty a.text_preview
                                  then []
                                  else txt "  --- содержимое (первые ≤2KB) ---\n"
                                    ++ (indent_lines (split_lines [] a.text_preview)
                                        ++ txt "  --- конец содержимого ---\n"))
                                ++ describe_loop atts)))))))

unfoldable pub trim_newlines : Text → Text
trim_newlines [] = []
trim_newlines (c ∷ s) =
    let rest = trim_newlines s in if c == 10 && is_empty rest then [] else c ∷ rest

unfoldable pub describe_attachments_for_reviewer : List ReviewAttachment → Text
unfolding describe_loop trim_newlines
describe_attachments_for_reviewer [] = []
describe_attachments_for_reviewer (a ∷ atts) =
    trim_newlines (txt "Файлы-артефакты от основной модели:\n" ++ describe_loop (a ∷ atts))

-- The text before the first occurrence of a pattern, and the text from it on.
unfoldable pub cut_at : Text → Text → Option (Text × Text)
cut_at p [] = if is_prefix p [] then some ([], []) else none
cut_at p (c ∷ s) =
    let rest = cut_at p s in
    if is_prefix p (c ∷ s)
    then some ([], c ∷ s)
    else elim rest [ none ↦ none | some (a, b) ↦ some (c ∷ a, b) ]

unfoldable pub split_model_attachment_block : Text → Text × Text
unfolding cut_at
split_model_attachment_block content = elim (cut_at (txt "\n📎 Файлы:") content) [
  | some (before, block) ↦ (trim_space before, block)
  | none ↦ if is_prefix (txt "📎 Файлы:") content then ([], content) else (content, [])
]

unfoldable pub join_model_attachment_block : Text → Text → Text
join_model_attachment_block text attachments =
    let t = trim_space text in
    if is_empty (trim_space attachments)
    then t
    else if is_empty t
    then trim_space attachments
    else t ++ (10 ∷ trim_space attachments)
