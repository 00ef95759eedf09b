-- ===== src/Api/Chat/Ownership.antt =====
-- api/chat.go: whose session and which provider a request uses.
use rubez_ai.Prelude.{
  ◌≡◌, sym, ap, ◌∙◌, subst, inl, inr, true, Option, none, some, List, [], ◌∷◌, arith, Bool-cases,
  Option-cases, Any, here, there, Text, text_eq, text_eq_iff,
}
use rubez_ai.Prelude.Result.{Result, ok, err}
use rubez_ai.Auth.{Identity}
use rubez_ai.Chat.Types.{Request}
use rubez_ai.Api.Http.{http_error}
use rubez_ai.Api.Ids.{DbError, current_user_id}
use rubez_ai.Api.Chat.{ChatRequestDto}
use rubez_ai.Api.Chat.Resolve.{
  ModelProvider, ChatSession, ChatApi, find_provider, resolve_provider, own_session,
  resolve_session,
}
use rubez_ai.Api.Chat.Handler.{build_chat_request, chat_request}
use rubez_ai.Api.Chat.Resolved.{chat_request-IsResolved}

module _ (api : ChatApi) where
  own_session-ok :
      (user_id : Text) (r : Result DbError ChatSession) (s : ChatSession)
      → own_session api user_id r ≡ ok s
      → s.user_id ≡ user_id
  unfolding own_session http_error
  own_session-ok user_id (ok x) s h = ground (arith, h, text_eq_iff x.user_id user_id)
  own_session-ok user_id (err DbError.not_found) s h = cc
  own_session-ok user_id (err DbError.conflict) s h = cc
  own_session-ok user_id (err DbError.duplicate) s h = cc
  own_session-ok user_id (err DbError.failed) s h = cc

  find_provider-ok :
      (name : Text) (ps : List ModelProvider) (p : ModelProvider)
      → find_provider api name ps ≡ ok p
      → (p.name ≡ name) × (p.is_enabled ≡ true) × (api.has p.name ≡ true) × Any (λ q. q ≡ p) ps
  unfolding find_provider http_error
  find_provider-ok name [] p h = cc
  find_provider-ok name (q ∷ ps) p h = elim (Bool-cases (text_eq q.name name)) [
    | inr n ↦
        let (a, b, c, d) = find_provider-ok name ps p (ground (arith, h, n)) in (a, b, c, there d)
    | inl e ↦
        let same : q ≡ p = ground (arith, h, e) in
        let enabled : q.is_enabled ≡ true = ground (arith, h, e) in
        let known : api.has q.name ≡ true = ground (arith, h, e) in
        (
          ap (λ (x : ModelProvider). x.name) (sym same) ∙ (text_eq_iff q.name name).0 e,
          subst (λ (x : ModelProvider). x.is_enabled ≡ true) same enabled,
          subst (λ (x : ModelProvider). api.has x.name ≡ true) same known,
          here same,
        )
  ]

  -- A session that was created for the user, where the body names none, or the one that it names.
  abbrev pub IsOpened : Text → Option Text → ChatSession → Type 0
  IsOpened user_id none s = api.create_chat_session user_id ≡ some s
  IsOpened user_id (some id) s = api.get_chat_session id ≡ ok s

  -- The request is for an enabled, registered provider of the list and for a session of the user.
  pub record IsServed (user_id : Text) (body : Option ChatRequestDto) (req : Request) : Type 0 where
    pub dto : ChatRequestDto
    pub decoded : body ≡ some dto
    pub providers : List ModelProvider
    pub provider : ModelProvider
    pub session : ChatSession
    pub listed : api.list_model_providers ≡ some providers
    pub named : Any (λ p. p ≡ provider) providers × (provider.name ≡ dto.provider)
    pub opened : IsOpened user_id dto.session_id session
    pub as_user : req.user_id ≡ user_id
    pub owned : (req.session_id ≡ session.id) × (session.user_id ≡ user_id)
    pub chosen : (req.provider ≡ provider.name) × (req.model_trust ≡ provider.trust_level)
    pub enabled : provider.is_enabled ≡ true
    pub registered : api.has provider.name ≡ true

  resolve_session-owned :
      (user_id : Text) (asked : Option Text) (s : ChatSession)
      → ((u : Text) (x : ChatSession) → api.create_chat_session u ≡ some x → x.user_id ≡ u)
      → resolve_session api user_id asked ≡ ok s
      → s.user_id ≡ user_id
  unfolding resolve_session http_error
  resolve_session-owned user_id (some id) s law h =
      own_session-ok user_id (api.get_chat_session id) s h
  resolve_session-owned user_id none s law h =
      elim (Option-cases (api.create_chat_session user_id)) [
        | inl n ↦ ground (arith, h, n)
        | inr (x, q) ↦
            let same : x ≡ s = ground (arith, h, q) in
            subst (λ (y : ChatSession). y.user_id ≡ user_id) same (law user_id x q)
      ]

  own_session-same :
      (user_id : Text) (r : Result DbError ChatSession) (s : ChatSession)
      → own_session api user_id r ≡ ok s
      → r ≡ ok s
  unfolding own_session http_error
  own_session-same user_id (ok x) s h = ground (arith, h)
  own_session-same user_id (err DbError.not_found) s h = cc
  own_session-same user_id (err DbError.conflict) s h = cc
  own_session-same user_id (err DbError.duplicate) s h = cc
  own_session-same user_id (err DbError.failed) s h = cc

  resolve_session-IsOpened :
      (user_id : Text) (asked : Option Text) (s : ChatSession)
      → resolve_session api user_id asked ≡ ok s
      → IsOpened user_id asked s
  unfolding resolve_session http_error
  resolve_session-IsOpened user_id (some id) s h =
      own_session-same user_id (api.get_chat_session id) s h
  resolve_session-IsOpened user_id none s h =
      elim (Option-cases (api.create_chat_session user_id)) [
        | inl n ↦ ground (arith, h, n)
        | inr (x, q) ↦ ground (arith, h, q)
      ]

  resolve_provider-ok :
      (name : Text) (p : ModelProvider)
      → resolve_provider api name ≡ ok p
      → (ps : List ModelProvider) × (api.list_model_providers ≡ some ps)
        × (p.name ≡ name)
        × (p.is_enabled ≡ true)
        × (api.has p.name ≡ true)
        × Any (λ q. q ≡ p) ps
  unfolding resolve_provider http_error
  resolve_provider-ok name p h = elim (Option-cases api.list_model_providers) [
    | inl n ↦ ground (arith, h, n)
    | inr (ps, q) ↦
        let (a, b, c, d) = find_provider-ok name ps p (ground (arith, h, q)) in (ps, q, a, b, c, d)
  ]

  -- A request that reaches the orchestrator is made for the authenticated user; in the stored session
  -- that the body names, or else in one that was created, which belongs to that user, when a session is
  -- created for the user it is asked for; and to the provider of the list that the body names, which is
  -- enabled and known to the router, with that provider's trust level.
  pub chat_request-IsServed :
      (identity : Identity) (body : Option ChatRequestDto) (req : Request) (user_id : Text)
      → ((u : Text) (x : ChatSession) → api.create_chat_session u ≡ some x → x.user_id ≡ u)
      → current_user_id api.user_id_for_role (some identity) ≡ ok user_id
      → chat_request api identity body ≡ ok req
      → IsServed user_id body req
  unfolding build_chat_request
  chat_request-IsServed identity body req user_id law user h =
      let w = chat_request-IsResolved api identity body req h in
      let same : w.user_id ≡ user_id = ground (arith, user, w.user) in
      let (ps, listed, named, enabled, registered, there1) =
        resolve_provider-ok w.dto.provider w.provider w.provided in
      record {
        dto = w.dto;
        decoded = w.decoded;
        providers = ps;
        listed = listed;
        named = (there1, named);
        opened =
            subst (λ u. IsOpened u w.dto.session_id w.session) same
              (resolve_session-IsOpened w.user_id w.dto.session_id w.session w.opened);
        provider = w.provider;
        session = w.session;
        as_user = ap (λ (r : Request). r.user_id) w.answer ∙ same;
        owned = (
          ap (λ (r : Request). r.session_id) w.answer,
          resolve_session-owned w.user_id w.dto.session_id w.session law w.opened ∙ same,
        );
        chosen = (
          ap (λ (r : Request). r.provider) w.answer,
          ap (λ (r : Request). r.model_trust) w.answer,
        );
        enabled = enabled;
        registered = registered;
      }
