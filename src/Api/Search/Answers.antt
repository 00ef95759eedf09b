-- ===== src/Api/Search/Answers.antt =====
-- api/search.go: what a search answers.
use rubez_ai.Prelude.{
  ◌≤◌, ◌≡◌, subst, inl, inr, Option, some, arith, ltb, Bool-cases, Option-cases, length, All, Text,
  is_empty,
}
use rubez_ai.Prelude.Result.{ok, Result-cases}
use rubez_ai.Auth.{Identity}
use rubez_ai.Storage.Documents.{Document}
use rubez_ai.Storage.Documents.Access.{IsAclCodec, IsSpelled, IsReadable}
use rubez_ai.Storage.Search.{search_chunks}
use rubez_ai.Storage.Search.Found.{IsFound, search_limit_bound, search_chunks-IsFound}
use rubez_ai.Api.Http.{http_error}
use rubez_ai.Api.Ids.{current_user_id}
use rubez_ai.Api.Audit.Listing.{user_or_empty}
use rubez_ai.Api.Documents.{role_of}
use rubez_ai.Api.Search.{
  SearchRequestDto, SearchResponseDto, SearchEnv, SearchState, search_query_max_runes,
  checked_query, pass_limiter, sanitize_query, search_for, search_handler,
}

checked_query-ok :
    {V L : Type 0} (env : SearchEnv V L) (dto d : SearchRequestDto)
    → checked_query env (some dto) ≡ ok d
    → d ≡ dto
unfolding http_error
checked_query-ok env dto d h = elim (Bool-cases (is_empty dto.query)) [
  | inl e ↦ ground (arith, h, e)
  | inr e ↦ elim (Bool-cases (ltb search_query_max_runes (length dto.query))) [
    | inl l ↦ ground (arith, h, e, l)
    | inr l ↦ ground (arith, h, e, l)
  ]
]

module _ {V L : Type 0} (env : SearchEnv V L) (law : IsAclCodec env.codec)
    (parses : All (λ (e : Text × Document). IsReadable env.codec e.1) env.tables.documents) where
  search_for-IsFound :
      (user_id role : Text)
      → IsSpelled env.codec user_id
      → (dto : SearchRequestDto) (s s' : SearchState L) (out : SearchResponseDto)
      → search_for env user_id role dto s ≡ (ok out, s')
      → All
          (IsFound env.vectors env.db env.codec user_id role dto.document_ids env.tables)
          out.results
        × (length out.results ≤ 20)
  unfolding search_for http_error
  search_for-IsFound user_id role spelled dto s s' out h =
      elim (Option-cases (env.embed (sanitize_query env dto.query).0)) [
        | inl n ↦ let k = rw (n, search_for) at h in ground (arith, k)
        | inr (v, e) ↦
            elim (Result-cases (
              search_chunks env.vectors env.db env.codec v user_id role env.embedder_name
                dto.document_ids dto.limit env.embeddings env.tables)) [
                  | inr (x, q) ↦ let k = rw (e, q, search_for) at h in ground (arith, k)
                  | inl (results, q) ↦
                      let k = rw (e, q, search_for) at h in
                      let same : results ≡ out.results = ground (arith, k) in
                      let (found, few) =
                        search_chunks-IsFound env.vectors env.db env.codec user_id role
                          dto.document_ids env.tables law spelled parses v env.embedder_name
                          dto.limit env.embeddings results q in
                      subst
                        (λ x.
                          All
                            (IsFound env.vectors env.db env.codec user_id role dto.document_ids
                              env.tables)
                            x
                          × (length x ≤ 20))
                        same (found, omega (arith, few, search_limit_bound dto.limit))
                ]
      ]

  -- Where the rights of the stored documents are lists of objects and the user's id is spelled as
  -- the database spells it: a search that is answered with results answers at most 20, each a
  -- piece of a chunk of a processed document that the user may see by the check in Go and that is
  -- among the requested ones, if the body names any.
  pub search_handler-IsFound :
      (identity : Option Identity) (dto : SearchRequestDto) (s s' : SearchState L)
      (out : SearchResponseDto)
      → IsSpelled env.codec (user_or_empty (current_user_id env.user_id_for_role identity))
      → search_handler env identity (some dto) s ≡ (ok out, s')
      → All
          (IsFound env.vectors env.db env.codec
            (user_or_empty (current_user_id env.user_id_for_role identity))
            (role_of identity)
            dto.document_ids
            env.tables)
          out.results
        × (length out.results ≤ 20)
  unfolding search_handler http_error
  search_handler-IsFound identity dto s s' out spelled h =
      let user = user_or_empty (current_user_id env.user_id_for_role identity) in
      elim (Result-cases (checked_query env (some dto))) [
        | inr (e, c) ↦ let k = rw (c, search_handler) at h in ground (arith, k)
        | inl (d, c) ↦ elim (Bool-cases (pass_limiter env user s).0) [
          | inr g ↦ let k = rw (c, g, search_handler) at h in ground (arith, k)
          | inl g ↦
              let k = rw (c, g, search_handler) at h in
              let same : d ≡ dto = checked_query-ok env dto d c in
              subst
                (λ (x : SearchRequestDto).
                  All
                    (IsFound env.vectors env.db env.codec user (role_of identity) x.document_ids
                      env.tables)
                    out.results
                  × (length out.results ≤ 20))
                same
                (search_for-IsFound user (role_of identity) spelled d (pass_limiter env user s).1 s'
                  out k)
        ]
      ]
