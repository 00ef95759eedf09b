-- ===== src/Chat/Mapping.antt =====
-- The input of the policy engine: rubezh-api/internal/chat/mapping.go. A class of risk is already
-- read as a `RiskClass`.
use rubez_ai.Prelude.{
  ℕ, suc, ◌≡◌, Bool, false, ◌||◌, List, [], ◌∷◌, arith, if◌then◌else◌, Text, txt, text_eq,
  text_eq_iff,
}
use rubez_ai.Policy.{ModelTrust, Input}
use rubez_ai.Sanitizer.{Entity, PreviewResponse}

unfoldable pub seen_type : List Text → Text → Bool
seen_type [] t = false
seen_type (s ∷ seen) t = text_eq s t || seen_type seen t

-- The loop over the entities: the types that were not seen before, in order.
unfoldable pub distinct_types : List Text → List Entity → List Text
unfolding seen_type
distinct_types seen [] = []
distinct_types seen (e ∷ es) =
    let fresh = e.type ∷ distinct_types (e.type ∷ seen) es in
    let rest = distinct_types seen es in if seen_type seen e.type then rest else fresh

unfoldable pub to_policy_input : PreviewResponse → ModelTrust → Text → Input
unfolding distinct_types
to_policy_input resp model_trust user_role = record {
  model_trust = model_trust;
  risk = resp.risk;
  entity_types = distinct_types [] resp.entities;
  user_role = user_role;
  context = txt "chat";
}

-- How often a type stands in a list.
unfoldable pub times : Text → List Text → ℕ
times t [] = 0
times t (s ∷ ts) = if text_eq s t then suc (times t ts) else times t ts

pub has_type : Text → List Entity → Bool
has_type t [] = false
has_type t (e ∷ es) = text_eq e.type t || has_type t es

times-distinct :
    (t : Text) (seen : List Text) (es : List Entity)
    → times t (distinct_types seen es)
      ≡ (if seen_type seen t then 0 else if has_type t es then 1 else 0)
unfolding times distinct_types has_type
times-distinct t seen [] = ground arith
times-distinct t seen (e ∷ es) =
    ground
      (arith, times-distinct t seen es, times-distinct t (e.type ∷ seen) es, text_eq_iff e.type t)

-- The policy input names each type of the sanitizer's entities once, and no other type.
pub entity_types-once :
    (resp : PreviewResponse) (trust : ModelTrust) (role t : Text)
    → times t (to_policy_input resp trust role).entity_types
      ≡ (if has_type t resp.entities then 1 else 0)
unfolding to_policy_input
entity_types-once resp trust role t = times-distinct t [] resp.entities
