-- ===== src/Chat/Orchestrator/Gate.antt =====
-- The gate before a chat: `Preview` and `PreviewFromSanitized`.
use rubez_ai.Prelude.{
  ℕ, ◌+◌, ◌≤◌, ◌≡◌, refl, sym, ap, ◌∙◌, subst, ◌⊎◌, inl, inr, false, none, some, List, arith,
  Option-cases, All, Text, txt, is_empty,
}
use rubez_ai.Prelude.Result.{Result, ok, err}
use rubez_ai.Sanitizer.{PreviewResponse}
use rubez_ai.Pseudonym.{PseudonymMap, empty_map, build_pseudonym_map}
use rubez_ai.Preview.{PreviewCache, PreviewResult, put, consume}
use rubez_ai.Preview.Origin.{Op}
use rubez_ai.Preview.Once.{Quiet, resume, consume-put}
use rubez_ai.Chat.Types.{Request, PreviewRequest}
use rubez_ai.Chat.Errors.{GoError}
use rubez_ai.Chat.World.{
  Env, World, Step, preview_failed, map_failed, ◌>>=◌, pure, stop, call_sanitizer,
}
use rubez_ai.Chat.Orchestrator.Steps.{sha256_hex, consume_preview}
use rubez_ai.Chat.Orchestrator.Prepare.{resolve_sanitize}
use rubez_ai.Chat.Orchestrator.Recorded.{
  Yields, bind-Yields, result-Yields, stop-Yields, pure-Yields,
}

-- The cases of a result, with the equation.
case_map :
    {E A B : Type 0} (r : Result E A) {f : E → Step B} {g : A → Step B} {w w' : World} {b : B}
    → Yields (elim r [ err e ↦ f e | ok a ↦ g a ]) w b w'
    → ((e : E) × Yields (f e) w b w') ⊎ ((a : A) × (r ≡ ok a) × Yields (g a) w b w')
case_map (err e) y = inl (e, y)
case_map (ok a) y = inr (a, refl, y)

module _ (env : Env) where
  unfoldable pub put_preview : PreviewResult → Request → Step Text
  put_preview res req w =
      let (c, token) =
        put w.previews (env.new_token w.history) (env.now w.history) (env.now w.history) res
          req.user_id req.session_id in
      (elim token [ none ↦ err preview_failed | some t ↦ ok t ], record w { previews = c })

  unfoldable pub preview : Request → Step (PreviewResponse × Text)
  preview req = do
    answer ← call_sanitizer env (record { text = req.message; context = txt "chat" })
    elim answer [
      | err _ ↦ stop preview_failed
      | ok response ↦ elim (build_pseudonym_map (sha256_hex env) req.message response.entities) [
        | err e ↦ stop (map_failed e)
        | ok pmap ↦ do
          token ← put_preview (record { preview = response; pmap = pmap }) req
          pure (response, token)
      ]
    ]

  -- A document comes sanitized from the worker, with no raw values.
  unfoldable pub preview_from_sanitized : Request → PreviewResponse → Step Text
  preview_from_sanitized req response =
      put_preview (record { preview = response; pmap = empty_map }) req

  -- What is left in the cache by a put that gave a token.
  pub put-Yields :
      (res : PreviewResult) (req : Request) {w w' : World} {token : Text}
      → Yields (put_preview res req) w token w'
      → (w'.history ≡ w.history)
        × (w'.previews
            ≡ (put w.previews
                (some token)
                (env.now w.history)
                (env.now w.history)
                res
                req.user_id
                req.session_id).0)
  unfolding put_preview put
  put-Yields res req {w = w} {token = token} y =
      let r = y.result in
      let v = y.world in
      elim (Option-cases (env.new_token w.history)) [
        | inl e ↦ let q = rw (e, put_preview) at r in absurd (ground arith)
        | inr (t, e) ↦
            let q = rw (e, put_preview) at r in
            let u = rw (e, put_preview) at v in
            let same : t ≡ token = ground arith in
            (
              sym (ap (λ x. x.history) u),
              sym (ap (λ x. x.previews) u)
                  ∙ ap
                      (λ x.
                        (put w.previews (some x) (env.now w.history) (env.now w.history) res
                          req.user_id req.session_id).0)
                      same,
            )
      ]

  -- A token of the gate, presented by the same user in time: the chat takes the stored preview.
  pub resolve_stored :
      (chat : Request) (w : World) (c : PreviewResult)
      → is_empty chat.preview_token ≡ false
      → (consume w.previews chat.preview_token chat.user_id (env.now w.history)).1 ≡ some c
      → ((resolve_sanitize env chat w).0 ≡ ok (c.preview, c.pmap))
        × ((resolve_sanitize env chat w).1.history ≡ w.history)
  unfolding resolve_sanitize consume_preview ◌>>=◌ pure
  resolve_stored chat w c n e = rw n (rw e (refl, refl))

  previews-sanitizer :
      (q : PreviewRequest) {w v : World} {a : Result GoError PreviewResponse}
      → Yields (call_sanitizer env q) w a v
      → v.previews ≡ w.previews
  unfolding call_sanitizer
  previews-sanitizer q y = sym (ap (λ x. x.previews) y.world)

  abbrev put_in : PreviewCache → ℕ → PreviewResult → Request → Text → PreviewCache
  put_in c now res req token = (put c (some token) now now res req.user_id req.session_id).0

  stored :
      (req : Request) (w w1 w2 w' : World) (r response : PreviewResponse) (pmap : PseudonymMap)
      (token' token : Text)
      → w1.previews ≡ w.previews
      → w2 ≡ w'
      → w2.history ≡ w1.history
      → w2.previews
        ≡ put_in w1.previews (env.now w1.history) (record { preview = r; pmap = pmap }) req token'
      → r ≡ response
      → token' ≡ token
      → w'.previews
        ≡ put_in w.previews
            (env.now w'.history)
            (record { preview = response; pmap = pmap })
            req
            token
  stored req w w1 w2 w' r response pmap token' token a b c d e f = cc

  -- What the user confirms is what is sent: if the gate answered a preview and a nonempty token,
  -- and the cache has since seen only operations that leave the token alone, then a chat request
  -- of the same user with that token, before its time to live is over, takes exactly that preview,
  -- with the map built from the confirmed message, and calls nothing.
  pub resolve_sanitize-preview :
      (req chat : Request) (w w' w'' : World) (response : PreviewResponse) (token : Text)
      (ops : List Op)
      → Yields (preview req) w (response, token) w'
      → is_empty token ≡ false
      → chat.preview_token ≡ token
      → chat.user_id ≡ req.user_id
      → w''.previews ≡ resume w'.previews ops
      → All (Quiet token (env.now w'.history + w.previews.ttl)) ops
      → env.now w''.history ≤ env.now w'.history + w.previews.ttl
      → (pmap : PseudonymMap) × (build_pseudonym_map (sha256_hex env) req.message response.entities
          ≡ ok pmap)
        × ((resolve_sanitize env chat w'').0 ≡ ok (response, pmap))
        × ((resolve_sanitize env chat w'').1.history ≡ w''.history)
  unfolding preview
  resolve_sanitize-preview req chat w w' w'' response token ops y n t u cache quiet time =
      let (answer, w1, ya, z) = bind-Yields y in
      elim (result-Yields answer z) [
        | inl (e, z') ↦ stop-Yields _ z'
        | inr (r, z') ↦
            elim (case_map (build_pseudonym_map (sha256_hex env) req.message r.entities) z') [
              | inl (e, z'') ↦ stop-Yields _ z''
              | inr (pmap, built, z'') ↦
                  let (token', w2, yt, last) = bind-Yields z'' in
                  let (same, world) = pure-Yields last in
                  let answered : r ≡ response = ap (λ x. x.0) same in
                  let given : token' ≡ token = ap (λ x. x.1) same in
                  let (hist, prev) = put-Yields _ req yt in
                  let cached =
                    stored req w w1 w2 w' r response pmap token' token (previews-sanitizer _ ya)
                      world hist prev answered given in
                  let found : (consume w''.previews chat.preview_token chat.user_id
                        (env.now w''.history)).1
                      ≡ some (record { preview = response; pmap = pmap }) =
                    rw (cache, cached, t, u)
                      (consume-put w.previews token req.user_id req.session_id _ _ _ _ ops quiet
                        time) in
                  let (one, two) = resolve_stored chat w'' _ (rw t n) found in
                  (
                    pmap,
                    subst
                        (λ x. build_pseudonym_map (sha256_hex env) req.message x.entities ≡ ok pmap)
                        answered built,
                    one,
                    two,
                  )
            ]
      ]
