-- ===== src/Api/Audit/Cursors.antt =====
-- api/audit.go: the cursor of a page and the filter that it gives.
use rubez_ai.Prelude.{◌≡◌, refl, ap, false, Option, none, some, List, [], ◌∷◌, ◌++◌, Text, is_empty}
use rubez_ai.Storage.Audit.{AuditEventRow, AuditFilter}
use rubez_ai.Api.Audit.{Codec, AuditCursor, encode_audit_cursor, decode_audit_cursor}
use rubez_ai.Api.Audit.Listing.{last_row}

-- The filter of the request for the next page.
abbrev pub with_cursor : AuditFilter → AuditCursor → AuditFilter
with_cursor f c = record f { cursor_created_at = some c.created_at; cursor_id = some c.id }

abbrev pub from_decoded : AuditFilter → Option (Option AuditCursor) → Option AuditFilter
from_decoded f none = none
from_decoded f (some none) = none
from_decoded f (some (some c)) = some (with_cursor f c)

abbrev pub next_filter : Codec → AuditFilter → Option Text → Option AuditFilter
next_filter codec f none = none
next_filter codec f (some c) = from_decoded f (decode_audit_cursor codec c)

-- What the formats of the cursor promise: base64 and JSON are read back, and the cursor is no empty
-- text.
pub record IsCodec (codec : Codec) : Type 0 where
  pub base64 : (t : Text) → codec.base64_decode (codec.base64_encode t) ≡ some t
  pub json : (c : AuditCursor) → codec.unmarshal (codec.marshal c) ≡ some c
  pub nonempty : (c : AuditCursor) → is_empty (encode_audit_cursor codec c) ≡ false

nonempty_decode :
    (codec : Codec) (t : Text)
    → is_empty t ≡ false
    → (bytes : Text) (c : AuditCursor) → codec.base64_decode t ≡ some bytes
    → codec.unmarshal bytes ≡ some c
    → decode_audit_cursor codec t ≡ some (some c)
unfolding decode_audit_cursor
nonempty_decode codec [] n bytes c h k = cc
nonempty_decode codec (x ∷ s) n bytes c h k = rw (h, decode_audit_cursor) (rw (k) refl)

pub decode-encode :
    (codec : Codec) (law : IsCodec codec) (c : AuditCursor)
    → decode_audit_cursor codec (encode_audit_cursor codec c) ≡ some (some c)
unfolding encode_audit_cursor
decode-encode codec law c =
    nonempty_decode codec (encode_audit_cursor codec c) (law.nonempty c) (codec.marshal c) c
      (law.base64 (codec.marshal c)) (law.json c)

-- The last of a page.
pub last_row-split :
    (r : AuditEventRow) (rs : List AuditEventRow)
    → (as' : List AuditEventRow) × (r ∷ rs ≡ as' ++ (last_row r rs ∷ []))
last_row-split r [] = ([], refl)
last_row-split r (s ∷ rs) = let (as', e) = last_row-split s rs in (r ∷ as', ap (λ x. r ∷ x) e)
