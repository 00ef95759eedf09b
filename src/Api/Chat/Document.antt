-- ===== src/Api/Chat/Document.antt =====
-- api/chat.go: a chat about a document that was previewed.
use rubez_ai.Prelude.{
  ◌+◌, ◌≤◌, ◌≡◌, sym, ap, inl, inr, false, some, List, arith, Bool-cases, All, Text, is_empty,
}
use rubez_ai.Prelude.Result.{ok, Result-cases}
use rubez_ai.Sanitizer.{PreviewResponse}
use rubez_ai.Pseudonym.{empty_map}
use rubez_ai.Storage.Documents.{Document, DocumentError, get_document}
use rubez_ai.Storage.Documents.Acl.{check_document_access}
use rubez_ai.Preview.{consume}
use rubez_ai.Preview.Origin.{Op}
use rubez_ai.Preview.Once.{Quiet, resume, consume-put}
use rubez_ai.Chat.Types.{Request}
use rubez_ai.Chat.World.{Env, World}
use rubez_ai.Chat.Orchestrator.Gate.{preview_from_sanitized, put-Yields, resolve_stored}
use rubez_ai.Chat.Orchestrator.Prepare.{resolve_sanitize}
use rubez_ai.Chat.Orchestrator.Recorded.{Yields}
use rubez_ai.Api.Http.{http_error}
use rubez_ai.Api.Ids.{is_uuid}
use rubez_ai.Api.Chat.Resolve.{ChatApi}
use rubez_ai.Api.Chat.Preview.{
  DocumentStore, ChatPreviewResponseDto, previewed_document, document_preview, preview_dto,
  preview_of_document,
}

module _ (store : DocumentStore) where
  -- A stored document that the user may see.
  pub record IsOpen (id user_id role : Text) : Type 0 where
    pub doc : Document
    pub stored : get_document store.db id store.tables.documents ≡ ok doc
    pub access : check_document_access store.acl doc user_id role ≡ ok tt

  previewed_document-ok :
      (id user_id role : Text) (d : Document)
      → previewed_document store id user_id role ≡ ok d
      → IsOpen id user_id role
  unfolding previewed_document http_error
  previewed_document-ok id user_id role d h = elim (Bool-cases (is_uuid id)) [
    | inr u ↦ ground (arith, h, u)
    | inl u ↦ elim (Result-cases (get_document store.db id store.tables.documents)) [
      | inr (DocumentError.not_found, g) ↦ ground (arith, h, u, g)
      | inr (DocumentError.forbidden, g) ↦ ground (arith, h, u, g)
      | inr (DocumentError.failed, g) ↦ ground (arith, h, u, g)
      | inl (e, g) ↦ elim (Result-cases (check_document_access store.acl e user_id role)) [
        | inr (x, a) ↦ ground (arith, h, u, g, a)
        | inl (x, a) ↦ record { doc = e; stored = g; access = a }
      ]
    ]
  ]

  document_preview-ok :
      (id user_id role : Text) (p : PreviewResponse)
      → document_preview store id user_id role ≡ ok p
      → IsOpen id user_id role
  unfolding document_preview
  document_preview-ok id user_id role p h =
      elim (Result-cases (previewed_document store id user_id role)) [
        | inl (d, q) ↦ previewed_document-ok id user_id role d q
        | inr (e, q) ↦ ground (arith, h, q)
      ]

  module _ (api : ChatApi) (env : Env) where
    preview_of_document-ok :
        (id : Text) (req : Request) (w w' : World) (out : ChatPreviewResponseDto)
        → preview_of_document api store env id req w ≡ (ok out, w')
        → (p : PreviewResponse) × (token : Text) × (document_preview store id req.user_id
              req.user_role
            ≡ ok p)
          × (out ≡ preview_dto api p token)
          × Yields (preview_from_sanitized env req p) w token w'
    unfolding preview_of_document http_error
    preview_of_document-ok id req w w' out h =
        elim (Result-cases (document_preview store id req.user_id req.user_role)) [
          | inr (e, q) ↦ ground (arith, h, q)
          | inl (p, q) ↦ elim (Result-cases (preview_from_sanitized env req p w).0) [
            | inr (e, f) ↦ let k = rw (q, f, preview_of_document) at h in ground (arith, k)
            | inl (token, f) ↦
                let k = rw (q, f, preview_of_document) at h in
                let same : preview_dto api p token ≡ out = ground (arith, k) in
                (p, token, q, sym same, record { result = f; world = ap (λ x. x.1) k })
          ]
        ]

    -- If the preview of a document is answered, the user may see that document; and if the cache has
    -- since seen only operations that leave the token alone, then a chat request of the same user with
    -- that token, before its time to live is over, takes exactly the text that was shown, with no raw
    -- value behind any pseudonym, and calls nothing.
    pub resolve_sanitize-document :
        (id : Text) (req chat : Request) (w w' w'' : World) (out : ChatPreviewResponseDto)
        (ops : List Op)
        → preview_of_document api store env id req w ≡ (ok out, w')
        → is_empty out.preview_token ≡ false
        → chat.preview_token ≡ out.preview_token
        → chat.user_id ≡ req.user_id
        → w''.previews ≡ resume w'.previews ops
        → All (Quiet out.preview_token (env.now w.history + w.previews.ttl)) ops
        → env.now w''.history ≤ env.now w.history + w.previews.ttl
        → IsOpen id req.user_id req.user_role
          × ((p : PreviewResponse) × (p.sanitized_text ≡ out.sanitized_text)
              × ((resolve_sanitize env chat w'').0 ≡ ok (p, empty_map))
              × ((resolve_sanitize env chat w'').1.history ≡ w''.history))
    unfolding preview_from_sanitized preview_dto
    resolve_sanitize-document id req chat w w' w'' out ops h n t u cache quiet time =
        let (p, token, shown, same, y) = preview_of_document-ok id req w w' out h in
        let given : out.preview_token ≡ token = ap (λ x. x.preview_token) same in
        let (hist, prev) = put-Yields env _ req y in
        let found : (consume w''.previews chat.preview_token chat.user_id (env.now w''.history)).1
            ≡ some (record { preview = p; pmap = empty_map }) =
          rw (cache, prev, t, u, given)
            (consume-put w.previews token req.user_id req.session_id _ _ _ _ ops (rw given at quiet)
              time) in
        let (one, two) = resolve_stored env chat w'' _ (rw t n) found in
        (
          document_preview-ok id req.user_id req.user_role p shown,
          (p, ap (λ x. x.sanitized_text) (sym same), one, two),
        )
