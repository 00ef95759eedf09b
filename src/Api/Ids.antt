-- ===== src/Api/Ids.antt =====
-- Identifiers of a request: `isUUID` and `currentUserID` of api/chat.go. The query of the user by
-- the role is a parameter.
use rubez_ai.Prelude.{
  ℕ, ◌+◌, Bool, true, ◌&&◌, ◌||◌, Option, none, some, [], ◌∷◌, leb, ◌==◌, if◌then◌else◌, Text,
  is_empty, rune_bytes, byte_len,
}
use rubez_ai.Prelude.Result.{Result, ok, err}
use rubez_ai.Auth.{Role, Identity}

unfoldable pub is_hex_digit : ℕ → Bool
is_hex_digit r =
    (leb b'0' r && leb r b'9') || (leb b'a' r && leb r b'f') || (leb b'A' r && leb r b'F')

-- The loop of `isUUID` from the byte `i`.
unfoldable pub uuid_loop : ℕ → Text → Bool
unfolding rune_bytes is_hex_digit
uuid_loop i [] = true
uuid_loop i (r ∷ s) =
    let rest = uuid_loop (i + rune_bytes r) s in
    if i == 8 || i == 13 || i == 18 || i == 23 then r == b'-' && rest else is_hex_digit r && rest

unfoldable pub is_uuid : Text → Bool
unfolding byte_len uuid_loop
is_uuid s = byte_len s == 36 && uuid_loop 0 s

-- The errors of the database that the handlers tell apart.
pub data DbError : Type 0 where
  not_found conflict duplicate failed : DbError

-- `none` is a request with no identity.
unfoldable pub current_user_id :
    (Role → Result DbError Text) → Option Identity → Result DbError Text
current_user_id user_id_for_role none = err failed
current_user_id user_id_for_role (some id) =
    if is_empty id.user_id then user_id_for_role id.role else ok id.user_id
