-- ===== src/Tests/Retrieval.antt =====
-- The retrieval for a chat, in one document.
use rubez_ai.Prelude.{arith, ℕ, ◌≡◌, refl, true, some, [], ◌∷◌, ltb, length, txt, text_eq, keep_if}
use rubez_ai.Prelude.Int.{pos}
use rubez_ai.Prelude.Dict.{lookup}
use rubez_ai.Prelude.Sort.{sort_by}
use rubez_ai.Prelude.Result.{ok}
use rubez_ai.Policy.{low, allow_masked, Outcome, no_rule}
use rubez_ai.Storage.Documents.{get_document_sanitization_result}
use rubez_ai.Storage.Documents.Acl.{is_supervisor, casts_user, acl_condition, has_value}
use rubez_ai.Storage.Search.{join_tables, find_chunk, search_condition, result_of, search_chunks}
use rubez_ai.Chat.Types.{Request, RagParams, RagHit}
use rubez_ai.Chat.World.{Env, World, ◌>>=◌, pure, call_retriever, time_now, log}
use rubez_ai.Chat.Rag.{
  max_hit_risk_level, build_rag_system_prompt, filter_high_risk_for_external, filter_loop,
  truncate_by_budget, truncate_loop,
}
use rubez_ai.Chat.Orchestrator.Steps.{record_audit_event}
use rubez_ai.Chat.Retriever.{ChatRetriever, retrieve, answer_of}
use rubez_ai.Chat.Retriever.Sources.{IsSourced, run_retrieval-IsSourced}
use rubez_ai.Chat.Orchestrator.Recorded.{}
use rubez_ai.Chat.Orchestrator.Retrieval.{
  use_answer, keep_hits, retrieve_hits, run_retrieval, maybe_revise_policy, write_rag_query_audit,
  audit_dropped, audit_suspicious,
}
use rubez_ai.Tests.Gateway.{env, start, question, found}
use rubez_ai.Tests.Search.{codec, codec-IsAclCodec, db, tables, plan_id, readable}

abbrev retriever : ChatRetriever ℕ
retriever = record {
  embed = λ t. some (length t);
  embedder_name = txt "e5";
  db = db;
  codec = codec;
  vectors = record { closer = λ q a b. ltb a b; relevance = λ q a. a };
  embeddings = record { chunk_id = txt "c1"; model = txt "e5"; vector = 4 } ∷ [];
  tables = tables;
}

abbrev with_retriever : Env
with_retriever = record env {
  retriever = some (λ h query p user_id role. answer_of (retrieve retriever query p user_id role));
}

abbrev params : RagParams
params = record { enabled = true; document_ids = plan_id ∷ []; top_k = pos 0 }

abbrev asking : Request
asking = record question { rag = some params }

abbrev allowed : Outcome
allowed = record no_rule { decision = allow_masked }

abbrev hit : RagHit
hit = record {
  document_id = plan_id;
  chunk_index = 0;
  filename = txt "plan.pdf";
  relevance = 4;
  snippet = txt "budget of [ORG_1]";
  risk_level = some low;
}

abbrev last : World
last = (run_retrieval with_retriever asking found allowed start).1

retrieval_run :
    (run_retrieval with_retriever asking found allowed start).0
    ≡ ok (build_rag_system_prompt (hit ∷ []), hit ∷ [], allowed)
unfolding txt text_eq lookup sort_by keep_if search_chunks casts_user is_supervisor join_tables
    find_chunk search_condition acl_condition has_value result_of get_document_sanitization_result
    retrieve run_retrieval retrieve_hits use_answer keep_hits maybe_revise_policy
    write_rag_query_audit audit_dropped audit_suspicious filter_high_risk_for_external filter_loop
    truncate_by_budget truncate_loop call_retriever time_now pure ◌>>=◌ max_hit_risk_level
    record_audit_event log
retrieval_run = refl

run_retrieval-IsSourced_example :
    IsSourced (λ h. retriever) asking params (build_rag_system_prompt (hit ∷ [])) (hit ∷ [])
run_retrieval-IsSourced_example =
    run_retrieval-IsSourced with_retriever (λ h. retriever) asking params found allowed
      (λ h. codec-IsAclCodec) (λ h. readable) (λ h u e. ground (arith, e)) refl refl start last
      (build_rag_system_prompt (hit ∷ []), hit ∷ [], allowed)
      (record { result = retrieval_run; world = refl })
