-- ===== src/Preview/Once.antt =====
-- A token's one use.
use rubez_ai.Prelude.{
  ℕ, ◌+◌, ◌≤◌, ◌≡◌, refl, ◌∙◌, inl, inr, false, none, some, List, [], ◌∷◌, arith, if◌then◌else◌,
  Option-cases, All, Text, text_eq, text_eq_iff, text_eq_refl,
}
use rubez_ai.Prelude.Dict.{Dict, lookup, lookup-erase, lookup-insert_self, lookup-insert_ne}
use rubez_ai.Preview.{PreviewResult, PreviewEntry, PreviewCache, prune, put, consume}
use rubez_ai.Preview.Origin.{Op, put_op, consume_op, step}

-- The cache after more operations, the last first.
unfoldable pub resume : PreviewCache → List Op → PreviewCache
unfolding step
resume c [] = c
resume c (op ∷ ops) = step (resume c ops) op

-- The operation puts nothing under the token.
abbrev pub PutsOther : Text → Op → Type 0
PutsOther token (put_op (some t) _ _ _ _ _) = text_eq t token ≡ false
PutsOther token _ = Unit

-- The operation neither puts nor consumes the token, and drops nothing that lives until `end`.
abbrev pub Quiet : Text → ℕ → Op → Type 0
Quiet token end (put_op (some t) pruned_at _ _ _ _) = (text_eq t token ≡ false) × (pruned_at ≤ end)
Quiet token end (put_op none _ _ _ _ _) = Unit
Quiet token end (consume_op t _ _) = text_eq t token ≡ false

lookup-prune-none :
    (k : Text) (now : ℕ) (m : Dict PreviewEntry) → lookup k m ≡ none → lookup k (prune now m) ≡ none
unfolding lookup prune
lookup-prune-none k now [] h = refl
lookup-prune-none k now ((j, e) ∷ m) h = ground (arith, lookup-prune-none k now m)

lookup-prune-some :
    (k : Text) (now : ℕ) (m : Dict PreviewEntry) (e : PreviewEntry)
    → lookup k m ≡ some e
    → now ≤ e.expires
    → lookup k (prune now m) ≡ some e
unfolding lookup prune
lookup-prune-some k now [] e h l = cc
lookup-prune-some k now ((j, x) ∷ m) e h l = ground (arith, lookup-prune-some k now m e)

lookup-consume :
    (c : PreviewCache) (t user k : Text) (now : ℕ)
    → lookup k (consume c t user now).0.entries ≡ (if text_eq t k then none else lookup k c.entries)
unfolding consume
lookup-consume c t user k now = elim (Option-cases (lookup t c.entries)) [
  | inl e ↦ rw (e, consume) (ground (arith, text_eq_iff t k))
  | inr (x, e) ↦ rw (e, consume) (lookup-erase t k c.entries)
]

step_absent :
    (c : PreviewCache) (token : Text) (op : Op)
    → PutsOther token op
    → lookup token c.entries ≡ none
    → lookup token (step c op).entries ≡ none
unfolding step
step_absent c token (put_op none p n r u s) q h = h
step_absent c token (put_op (some t) p n r u s) q h =
    lookup-insert_ne t token _ (prune p c.entries) q ∙ lookup-prune-none token p c.entries h
step_absent c token (consume_op t u n) q h = ground (arith, lookup-consume c t u token n)

step-Quiet :
    (c : PreviewCache) (token : Text) (e : PreviewEntry) (op : Op)
    → Quiet token e.expires op
    → lookup token c.entries ≡ some e
    → lookup token (step c op).entries ≡ some e
unfolding step
step-Quiet c token e (put_op none p n r u s) q h = h
step-Quiet c token e (put_op (some t) p n r u s) q h =
    lookup-insert_ne t token _ (prune p c.entries) q.0 ∙ lookup-prune-some token p c.entries e h q.1
step-Quiet c token e (consume_op t u n) q h = rw (lookup-consume c t u token n, q) h

resume_absent :
    (c : PreviewCache) (token : Text) (ops : List Op)
    → All (PutsOther token) ops
    → lookup token c.entries ≡ none
    → lookup token (resume c ops).entries ≡ none
unfolding resume
resume_absent c token [] q h = h
resume_absent c token (op ∷ ops) q h =
    step_absent (resume c ops) token op q.0 (resume_absent c token ops q.1 h)

resume-Quiet :
    (c : PreviewCache) (token : Text) (e : PreviewEntry) (ops : List Op)
    → All (Quiet token e.expires) ops
    → lookup token c.entries ≡ some e
    → lookup token (resume c ops).entries ≡ some e
unfolding resume
resume-Quiet c token e [] q h = h
resume-Quiet c token e (op ∷ ops) q h =
    step-Quiet (resume c ops) token e op q.0 (resume-Quiet c token e ops q.1 h)

consume_absent :
    (c : PreviewCache) (token user : Text) (now : ℕ)
    → lookup token c.entries ≡ none
    → (consume c token user now).1 ≡ none
unfolding consume
consume_absent c token user now h = rw (h, consume)

-- After a token was presented once, by whomever and with whatever result, no one gets anything for it
-- as long as nothing new is put under it.
pub consume_once :
    (c : PreviewCache) (token user user' : Text) (now now' : ℕ) (ops : List Op)
    → All (PutsOther token) ops
    → (consume (resume (consume c token user now).0 ops) token user' now').1 ≡ none
consume_once c token user user' now now' ops q =
    consume_absent (resume (consume c token user now).0 ops) token user' now' (
      resume_absent (consume c token user now).0 token ops q
        (lookup-consume c token user token now ∙ gone token))
  where
    gone : (t : Text) → (if text_eq t t then none else lookup t c.entries) ≡ none
    gone t = rw (text_eq_refl t)

consume_present :
    (c : PreviewCache) (token : Text) (e : PreviewEntry) (now : ℕ)
    → lookup token c.entries ≡ some e
    → now ≤ e.expires
    → (consume c token e.user_id now).1 ≡ some e.result
unfolding consume
consume_present c token e now h l = ground (arith, text_eq_refl e.user_id)

lookup-put :
    (c : PreviewCache) (token user session : Text) (pruned_at now : ℕ) (res : PreviewResult)
    → lookup token (put c (some token) pruned_at now res user session).0.entries
      ≡ some (record { result = res; user_id = user; session_id = session; expires = now + c.ttl })
unfolding put
lookup-put c token user session pruned_at now res =
    lookup-insert_self token _ (prune pruned_at c.entries)

-- What a user puts in the cache, the same user gets back under the token until its time to live is
-- over, if in between nobody presents the token and nothing else is put under it; other users'
-- previews do not disturb it.
pub consume-put :
    (c : PreviewCache) (token user session : Text) (pruned_at now now' : ℕ) (res : PreviewResult)
    (ops : List Op)
    → All (Quiet token (now + c.ttl)) ops
    → now' ≤ now + c.ttl
    → (consume (resume (put c (some token) pruned_at now res user session).0 ops) token user now').1
      ≡ some res
consume-put c token user session pruned_at now now' res ops q l =
    let e : PreviewEntry = record {
      result = res;
      user_id = user;
      session_id = session;
      expires = now + c.ttl;
    } in
    let c' = (put c (some token) pruned_at now res user session).0 in
    consume_present (resume c' ops) token e now'
      (resume-Quiet c' token e ops q (lookup-put c token user session pruned_at now res)) l
