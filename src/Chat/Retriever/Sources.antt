-- ===== src/Chat/Retriever/Sources.antt =====
-- chat/rag.go and orchestrator_rag.go: the sources that a model gets.
use rubez_ai.Prelude.{
  ℕ, ◌≤◌, ◌≡◌, refl, subst, inl, inr, true, false, not, ◌||◌, Option, none, some, List, [], map,
  arith, Bool-cases, Option-cases, length, length-map, All, All-imp, All-map, Text,
}
use rubez_ai.Prelude.Int.{ℤ, pos, negsuc}
use rubez_ai.Prelude.Result.{Result, ok, err, Result-cases}
use rubez_ai.Policy.{Outcome, is_external_trust}
use rubez_ai.Sanitizer.{PreviewResponse}
use rubez_ai.Storage.Documents.{Document}
use rubez_ai.Storage.Documents.Access.{IsAclCodec, IsSpelled, IsReadable}
use rubez_ai.Storage.Search.{SearchResult, search_limit, search_chunks}
use rubez_ai.Storage.Search.Found.{IsFound, search_chunks-IsFound}
use rubez_ai.Chat.Types.{Request, RagParams, RagHit}
use rubez_ai.Chat.World.{Env, World, Event, call_retriever}
use rubez_ai.Chat.Rag.{
  is_high_risk, filter_high_risk_for_external, truncate_by_budget, rag_budget_runes,
  build_rag_system_prompt,
}
use rubez_ai.Chat.Rag.Laws.{runes, runes-truncate_by_budget}
use rubez_ai.Chat.Rag.Kept.{
  All-truncate_by_budget, All-filter_high_risk, filter_high_risk_mild, length-filter_high_risk,
  length-truncate_by_budget,
}
use rubez_ai.Chat.Retriever.{ChatRetriever, RetrieveError, clamp_top_k, hit_of, retrieve, answer_of}
use rubez_ai.Chat.Orchestrator.Recorded.{Yields, bind-Yields, pure-Yields, bool-Yields}
use rubez_ai.Chat.Orchestrator.Retrieval.{
  is_blocking, use_answer, keep_hits, retrieve_hits, run_retrieval,
}

clamp_top_k_bound : (n : ℤ) → search_limit (clamp_top_k n) ≤ 10
clamp_top_k_bound (negsuc n) = ground arith
clamp_top_k_bound (pos n) = ground arith

answer_of-ok :
    (r : Result RetrieveError (List RagHit)) (hits : List RagHit)
    → answer_of r ≡ some hits
    → r ≡ ok hits
answer_of-ok (ok x) hits h = ground (arith, h)
answer_of-ok (err e) hits h = cc

module _ {V : Type 0} where
  -- The hit is of a piece that the search may show to the user, among the requested documents if any.
  abbrev pub IsSource : ChatRetriever V → Text → Text → RagParams → RagHit → Type 0
  IsSource r user_id role p h =
      (res : SearchResult) × (h ≡ hit_of res)
      × IsFound r.vectors r.db r.codec user_id role p.document_ids r.tables res

  pub retrieve-IsSource :
      (r : ChatRetriever V)
      → IsAclCodec r.codec
      → All (λ (e : Text × Document). IsReadable r.codec e.1) r.tables.documents
      → (text user_id role : Text) (p : RagParams) (hits : List RagHit) → IsSpelled r.codec user_id
      → retrieve r text p user_id role ≡ ok hits
      → All (IsSource r user_id role p) hits × (length hits ≤ 10)
  unfolding retrieve
  retrieve-IsSource r law readable text user_id role p hits spelled h =
      elim (Option-cases (r.embed text)) [
        | inl n ↦ let k = rw (n, retrieve) at h in ground (arith, k)
        | inr (v, e) ↦
            elim (Result-cases (
              search_chunks r.vectors r.db r.codec v user_id role r.embedder_name p.document_ids
                (clamp_top_k p.top_k) r.embeddings r.tables)) [
                  | inr (x, q) ↦ let k = rw (e, q, retrieve) at h in ground (arith, k)
                  | inl (results, q) ↦
                      let k = rw (e, q, retrieve) at h in
                      let same : map hit_of results ≡ hits = ground (arith, k) in
                      let (found, few) =
                        search_chunks-IsFound r.vectors r.db r.codec user_id role p.document_ids
                          r.tables law spelled readable v r.embedder_name (clamp_top_k p.top_k)
                          r.embeddings results q in
                      subst (λ x. All (IsSource r user_id role p) x × (length x ≤ 10)) same
                        (
                          All-map (IsSource r user_id role p) hit_of results (
                              All-imp
                                (IsFound r.vectors r.db r.codec user_id role p.document_ids
                                  r.tables)
                                _ (λ res f. (res, refl, f)) results found),
                          omega (arith, length-map hit_of results, few, clamp_top_k_bound p.top_k),
                        )
                ]
      ]

  -- What the model gets: sources that were found in the tables of some time.
  pub record IsSourced (rs : List Event → ChatRetriever V) (req : Request) (p : RagParams)
      (text : Text) (hits : List RagHit) : Type 0 where
    pub seen : List Event
    pub sources : All (IsSource (rs seen) req.user_id req.user_role p) hits
    pub mild : is_external_trust req.model_trust ≡ true → All (λ h. is_high_risk h ≡ false) hits
    pub few : length hits ≤ 10
    pub short : runes hits ≤ rag_budget_runes
    pub prompt : text ≡ build_rag_system_prompt hits

  module _ (env : Env) (rs : List Event → ChatRetriever V) (req : Request) (p : RagParams) where
    nothing-IsSourced : (h : List Event) → IsSourced rs req p [] []
    unfolding build_rag_system_prompt
    nothing-IsSourced h = record {
      seen = h;
      sources = tt;
      mild = λ e. tt;
      few = omega arith;
      short = ground arith;
      prompt = refl;
    }

    kept-IsSourced :
        (h : List Event) (hits : List RagHit)
        → All (IsSource (rs h) req.user_id req.user_role p) hits
        → length hits ≤ 10
        → (let fitting =
              truncate_by_budget
                (filter_high_risk_for_external hits (is_external_trust req.model_trust)).0
                rag_budget_runes in
            IsSourced rs req p (build_rag_system_prompt fitting) fitting)
    kept-IsSourced h hits all few =
        let external = is_external_trust req.model_trust in
        let kept = (filter_high_risk_for_external hits external).0 in
        record {
          seen = h;
          sources =
              All-truncate_by_budget (IsSource (rs h) req.user_id req.user_role p) kept
                rag_budget_runes
                (All-filter_high_risk (IsSource (rs h) req.user_id req.user_role p) hits external
                  all);
          mild = λ e.
              All-truncate_by_budget (λ x. is_high_risk x ≡ false) kept rag_budget_runes
                (filter_high_risk_mild hits external e);
          few = omega (
            arith,
            few,
            length-filter_high_risk hits external,
            length-truncate_by_budget kept rag_budget_runes,
          );
          short = runes-truncate_by_budget kept rag_budget_runes (ground arith);
          prompt = refl;
        }

    keep_hits-IsSourced :
        (preview : PreviewResponse) (revised : Outcome) (h : List Event) (hits : List RagHit)
        (started : ℕ)
        → All (IsSource (rs h) req.user_id req.user_role p) hits
        → length hits ≤ 10
        → {w w' : World} {out : Text × List RagHit × Outcome}
        → Yields (keep_hits env req preview revised hits started) w out w'
        → IsSourced rs req p out.0 out.1
    unfolding keep_hits
    keep_hits-IsSourced preview revised h hits started all few y =
        let (a1, w1, s1, y1) = bind-Yields y in
        let (a2, w2, s2, y2) = bind-Yields y1 in
        let (a3, w3, s3, y3) = bind-Yields y2 in
        let (same, end) = pure-Yields y3 in
        subst (λ (x : Text × List RagHit × Outcome). IsSourced rs req p x.0 x.1) same
          (kept-IsSourced h hits all few)

    use_answer-IsSourced :
        (preview : PreviewResponse) (outcome : Outcome) (h : List Event) (started : ℕ)
        (answer : Option (List RagHit))
        → ((hits : List RagHit)
            → answer ≡ some hits
            → All (IsSource (rs h) req.user_id req.user_role p) hits × (length hits ≤ 10))
        → {w w' : World} {out : Text × List RagHit × Outcome}
        → Yields (use_answer env req preview outcome started answer) w out w'
        → IsSourced rs req p out.0 out.1
    unfolding use_answer
    use_answer-IsSourced preview outcome h started none good y =
        let (now, w1, s1, y1) = bind-Yields y in
        let (a2, w2, s2, y2) = bind-Yields y1 in
        let (same, end) = pure-Yields y2 in
        subst (λ (x : Text × List RagHit × Outcome). IsSourced rs req p x.0 x.1) same
          (nothing-IsSourced h)
    use_answer-IsSourced preview outcome h started (some hits) good y =
        let (all, few) = good hits refl in
        let (revised, w1, s1, y1) = bind-Yields y in
        elim (bool-Yields (is_blocking revised.decision) y1) [
          | inl (b, y2) ↦
              let (a2, w2, s2, y3) = bind-Yields y2 in
              let (same, end) = pure-Yields y3 in
              subst (λ (x : Text × List RagHit × Outcome). IsSourced rs req p x.0 x.1) same
                (nothing-IsSourced h)
          | inr y2 ↦ keep_hits-IsSourced preview revised h hits started all few y2
        ]

    -- Where the orchestrator's retriever is the embedder with the search, and the rights of the
    -- stored documents are lists of objects, and the user's id is spelled as the database spells
    -- it: the text that retrieval hands to the model is made of at most 10 hits, within the budget
    -- of runes; each is a piece of a chunk of a processed document that the user may see by the
    -- check in Go and that is among the requested ones, if any; and for an external model none is
    -- of high or critical risk.
    pub run_retrieval-IsSourced :
        (preview : PreviewResponse) (outcome : Outcome)
        → ((h : List Event) → IsAclCodec (rs h).codec)
        → ((h : List Event)
            → All (λ (e : Text × Document). IsReadable (rs h).codec e.1) (rs h).tables.documents)
        → ((h : List Event) → IsSpelled (rs h).codec req.user_id)
        → env.retriever
          ≡ some
              (λ h query params user_id role. answer_of (retrieve (rs h) query params user_id role))
        → req.rag ≡ some p
        → (w w' : World) (out : Text × List RagHit × Outcome)
        → Yields (run_retrieval env req preview outcome) w out w'
        → IsSourced rs req p out.0 out.1
    unfolding run_retrieval retrieve_hits call_retriever
    run_retrieval-IsSourced preview outcome law readable spelled installed asked w w' out y =
        let k = rw (installed, asked, run_retrieval) at y in
        elim (Bool-cases (not p.enabled || is_blocking outcome.decision)) [
          | inl b ↦
              let (same, end) = pure-Yields (rw (b) at k) in
              subst (λ (x : Text × List RagHit × Outcome). IsSourced rs req p x.0 x.1) same
                (nothing-IsSourced w.history)
          | inr b ↦
              let (started, w1, s1, y1) = bind-Yields (rw (b) at k) in
              let (answer, w2, s2, y2) = bind-Yields y1 in
              use_answer-IsSourced preview outcome w1.history started answer
                (λ hits e.
                  retrieve-IsSource (rs w1.history) (law w1.history) (readable w1.history)
                    preview.sanitized_text req.user_id req.user_role p hits (spelled w1.history)
                    (answer_of-ok _ hits (ground (arith, s2.result, e))))
                y2
        ]
