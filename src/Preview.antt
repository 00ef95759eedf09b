-- ===== src/Preview.antt =====
-- The one-time cache of previews: rubezh-api/internal/chat/preview.go. Times are nanoseconds; the
-- mutex makes each call one step. The random token is an argument, `none` if the source failed.
pub mod Once
pub mod Origin
use rubez_ai.Prelude.{
  ℕ, zero, suc, ◌+◌, ◌-◌, ◌*◌, ◌/◌, ◌%◌, ◌≤◌, ◌<◌, min, String, ◌≡◌, refl, sym, ap, ◌∙◌, subst, ◌≢◌,
  ◌↔◌, ◌⊎◌, inl, inr, Bool, true, false, not, ◌&&◌, ◌||◌, Option, none, some, List, [], ◌∷◌, ◌++◌,
  map, arith, ltb, leb, ◌==◌, if◌then◌else◌, ltb→lt, lt→ltb, leb→le, ==_iff, tests, Bool-cases,
  Option-cases, length, take, drop, length-append, take-append-drop, length-take, length-drop, All,
  Any, here, there, All-append, All-imp, All-map, Any-map, Any-imp, Any-append_left,
  Any-append_right, Text, txt, text_eq, is_empty, is_prefix, contains, rune_bytes, byte_len,
  text_lt, is_space, trim_left, trim_right, trim_space, text_eq_iff, text_eq_refl,
}
use rubez_ai.Prelude.Dict.{Dict, lookup, insert, erase}
use rubez_ai.Prelude.Result.{Result, ok, err}
use rubez_ai.Sanitizer.{PreviewResponse}
use rubez_ai.Pseudonym.{PseudonymMap}

pub record PreviewResult : Type 0 where
  pub preview : PreviewResponse
  pub pmap : PseudonymMap

pub record PreviewEntry : Type 0 where
  pub result : PreviewResult
  pub user_id : Text
  pub session_id : Text
  pub expires : ℕ

pub record PreviewCache : Type 0 where
  pub entries : Dict PreviewEntry
  pub ttl : ℕ

unfoldable pub new_preview_cache : ℕ → PreviewCache
new_preview_cache ttl = record { entries = []; ttl = ttl }

-- `delete` of each entry that is over at `now`, in a range loop over the map.
unfoldable pub prune : ℕ → Dict PreviewEntry → Dict PreviewEntry
prune now [] = []
prune now ((k, e) ∷ m) = let rest = prune now m in if ltb e.expires now then rest else (k, e) ∷ rest

-- `pruned_at` is the time that `pruneLocked` reads, `now` the time that `put` reads after it.
unfoldable pub put :
    PreviewCache → Option Text → ℕ → ℕ → PreviewResult → Text → Text → PreviewCache × Option Text
unfolding prune
put c none pruned_at now res user_id session_id = (c, none)
put c (some token) pruned_at now res user_id session_id = (
  record c {
    entries =
        insert token
          (record {
            result = res;
            user_id = user_id;
            session_id = session_id;
            expires = now + c.ttl;
          })
          (prune pruned_at c.entries);
  },
  some token,
)

unfoldable pub consume : PreviewCache → Text → Text → ℕ → PreviewCache × Option PreviewResult
consume c token user_id now = elim (lookup token c.entries) [
  | none ↦ (c, none)
  | some e ↦ (
    record c { entries = erase token c.entries },
    if not (text_eq e.user_id user_id) || ltb e.expires now then none else some e.result,
  )
]
