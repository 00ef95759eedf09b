-- ===== src/Preview/Origin.antt =====
-- Runs of the cache: what a consumer can get.
use rubez_ai.Prelude.{
  ℕ, ◌+◌, ◌≤◌, ◌≡◌, refl, sym, ap, ◌∙◌, subst, inl, inr, Option, none, some, List, [], ◌∷◌, arith,
  ltb, Bool-cases, Option-cases, All, Any, here, there, All-imp, Text, text_eq_iff,
}
use rubez_ai.Prelude.Dict.{Dict, lookup, All-insert, All-erase, All_lookup}
use rubez_ai.Preview.{
  PreviewResult, PreviewEntry, PreviewCache, new_preview_cache, prune, put, consume,
}

pub data Op : Type 0 where
  put_op :
      (token : Option Text) (pruned_at now : ℕ) (res : PreviewResult) (user_id session_id : Text)
      → Op
  consume_op : (token user_id : Text) (now : ℕ) → Op

unfoldable pub step : PreviewCache → Op → PreviewCache
unfolding put consume
step c (put_op token pruned_at now res user_id session_id) =
    (put c token pruned_at now res user_id session_id).0
step c (consume_op token user_id now) = (consume c token user_id now).0

-- The state after a history, the last operation first.
unfoldable pub replay : ℕ → List Op → PreviewCache
unfolding step new_preview_cache
replay ttl [] = new_preview_cache ttl
replay ttl (op ∷ ops) = step (replay ttl ops) op

-- The operation put this result under the token for this user, and its time to live ends at `end`.
abbrev pub Stored : ℕ → Text → PreviewResult → Text → ℕ → Op → Type 0
Stored ttl token res user end (put_op t _ now r u _) =
    (t ≡ some token) × (r ≡ res) × (u ≡ user) × (now + ttl ≡ end)
Stored ttl token res user end (consume_op _ _ _) = ⊥

abbrev Origin : ℕ → List Op → Text × PreviewEntry → Type 0
Origin ttl ops (token, e) = Any (Stored ttl token e.result e.user_id e.expires) ops

All-prune {ℓ} :
    (P : Text × PreviewEntry → Type ℓ) (now : ℕ) (m : Dict PreviewEntry)
    → All P m
    → All P (prune now m)
unfolding prune
All-prune P now [] h = tt
All-prune P now ((k, e) ∷ m) h = elim (Bool-cases (ltb e.expires now)) [
  | inl b ↦ rw b (All-prune P now m h.1)
  | inr b ↦ rw b (h.0, All-prune P now m h.1)
]

ttl-step : (c : PreviewCache) (op : Op) → (step c op).ttl ≡ c.ttl
unfolding step
ttl-step c (put_op none pruned_at now res user_id session_id) = refl
ttl-step c (put_op (some t) pruned_at now res user_id session_id) = refl
ttl-step c (consume_op token user_id now) = ground arith

ttl-replay : (ttl : ℕ) (ops : List Op) → (replay ttl ops).ttl ≡ ttl
unfolding replay
ttl-replay ttl [] = refl
ttl-replay ttl (op ∷ ops) = ttl-step (replay ttl ops) op ∙ ttl-replay ttl ops

later :
    (ttl : ℕ) (ops : List Op) (op : Op) (m : Dict PreviewEntry)
    → All (Origin ttl ops) m
    → All (Origin ttl (op ∷ ops)) m
later ttl ops op m = All-imp (Origin ttl ops) (Origin ttl (op ∷ ops)) (λ x h. there h) m

consume_entries {ℓ} :
    (P : Text × PreviewEntry → Type ℓ) (c : PreviewCache) (token user : Text) (now : ℕ)
    → All P c.entries
    → All P (consume c token user now).0.entries
unfolding consume
consume_entries P c token user now h = elim (Option-cases (lookup token c.entries)) [
  | inl e ↦ rw (e, consume) h
  | inr (x, e) ↦ rw (e, consume) (All-erase P token c.entries h)
]

origins : (ttl : ℕ) (ops : List Op) → All (Origin ttl ops) (replay ttl ops).entries
unfolding replay
origins ttl [] = tt
origins ttl (consume_op token user_id now ∷ ops) =
    consume_entries (Origin ttl (consume_op token user_id now ∷ ops)) (replay ttl ops) token user_id
      now (later ttl ops (consume_op token user_id now) _ (origins ttl ops))
origins ttl (put_op none pruned_at now res user_id session_id ∷ ops) =
    later ttl ops (put_op none pruned_at now res user_id session_id) _ (origins ttl ops)
origins ttl (put_op (some t) pruned_at now res user_id session_id ∷ ops) =
    let op = put_op (some t) pruned_at now res user_id session_id in
    All-insert (Origin ttl (op ∷ ops)) t _ (prune pruned_at (replay ttl ops).entries)
      (here (refl, refl, refl, ap (λ x. now + x) (sym (ttl-replay ttl ops))))
      (All-prune (Origin ttl (op ∷ ops)) pruned_at _ (later ttl ops op _ (origins ttl ops)))

consumed :
    (c : PreviewCache) (token user : Text) (now : ℕ) (res : PreviewResult)
    → (consume c token user now).1 ≡ some res
    → (e : PreviewEntry) × (lookup token c.entries ≡ some e)
      × (e.user_id ≡ user)
      × (now ≤ e.expires)
      × (e.result ≡ res)
unfolding consume
consumed c token user now res h = elim (Option-cases (lookup token c.entries)) [
  | inl e ↦ absurd (ground arith)
  | inr (x, e) ↦ (x, e, ground (arith, text_eq_iff x.user_id user), ground arith, ground arith)
]

-- What `consume` hands out after any history of the cache was put under that token, by the same
-- user, and its time to live is not over.
pub consume-Stored :
    (ttl : ℕ) (ops : List Op) (token user : Text) (now : ℕ) (res : PreviewResult)
    → (consume (replay ttl ops) token user now).1 ≡ some res
    → (end : ℕ) × (now ≤ end) × Any (Stored ttl token res user end) ops
consume-Stored ttl ops token user now res h =
    let (e, look, owner, alive, same) = consumed (replay ttl ops) token user now res h in
    (
      e.expires,
      alive,
      subst (λ r. Any (Stored ttl token r user e.expires) ops) same
          (subst (λ u. Any (Stored ttl token e.result u e.expires) ops) owner
            (All_lookup (Origin ttl ops) token e (replay ttl ops).entries (origins ttl ops) look)),
    )
