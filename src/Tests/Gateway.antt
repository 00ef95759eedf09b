-- ===== src/Tests/Gateway.antt =====
-- The orchestrator on a request with a secret in it, with services that always answer.
use rubez_ai.Prelude.{
  ◌+◌, ◌≤◌, ◌≡◌, refl, subst, ◌⊎◌, true, false, none, some, [], ◌∷◌, ◌++◌, arith, txt, is_empty,
  trim_space,
}
use rubez_ai.Prelude.Result.{Result, ok}
use rubez_ai.Policy.{external, high, secret, decide, decide_rules, default_policy, has_class_in}
use rubez_ai.Sanitizer.{PreviewResponse}
use rubez_ai.Pseudonym.{empty_map, build_pseudonym_map, build_loop, sort_by_start}
use rubez_ai.Preview.{new_preview_cache}
use rubez_ai.Throttle.{new_throttle_reporter}
use rubez_ai.Chat.Types.{Request, Prepared}
use rubez_ai.Chat.Mapping.{to_policy_input}
use rubez_ai.Chat.World.{
  Failure, Env, World, created, ◌>>=◌, pure, call_sanitizer, call_record_request,
}
use rubez_ai.Chat.Orchestrator.Steps.{consume_preview}
use rubez_ai.Chat.Orchestrator.Mappings.{build_encrypted_mappings}
use rubez_ai.Chat.Orchestrator.Prepare.{
  prepare, resolve_sanitize, report_token_miss, fresh_sanitize, sanitize_system_prompt,
  sanitize_review_prompts,
}
use rubez_ai.Chat.Orchestrator.Retrieval.{is_blocking}
use rubez_ai.Chat.Orchestrator.Stream.{handle}
use rubez_ai.Chat.Orchestrator.Silence.{model_calls}
use rubez_ai.Chat.Orchestrator.Recorded.{Yields}
use rubez_ai.Preview.{put}
use rubez_ai.Preview.Once.{resume}
use rubez_ai.Pseudonym.{PseudonymMap}
use rubez_ai.Chat.Orchestrator.Steps.{sha256_hex}
use rubez_ai.Chat.Orchestrator.Gate.{put_preview, preview, resolve_sanitize-preview}
use rubez_ai.Storage.{ChatTerminationIds, chat_response}
use rubez_ai.Pseudonym.Replace.{remask, replace}
use rubez_ai.Pseudonym.Leak.{detect_leak}
use rubez_ai.Chat.Decision.{Action}
use rubez_ai.Chat.Chunks.{chunk_text, chunk_loop}
use rubez_ai.Chat.Incident.{auto_incident_trigger}
use rubez_ai.Chat.Records.{final_texts, termination_record}
use rubez_ai.Chat.World.{call_record_termination, call_open_incident, send}
use rubez_ai.Chat.Orchestrator.Steps.{emit_status}
use rubez_ai.Chat.Orchestrator.Stream.{deliver, send_deltas, finish, create_auto_incident_if_needed}
use rubez_ai.Chat.Orchestrator.Deltas.{deltas_of, deltas-deliver}
use rubez_ai.Chat.Orchestrator.Order.{handle-Silent}
use rubez_ai.Prelude.Sort.{sort_by}

abbrev pub found : PreviewResponse
found = record {
  sanitized_text = txt "key [SECRET_1]";
  entities = [];
  risk = record { level = high; classes = secret ∷ []; score = 0 };
  mapping_id = none;
}

abbrev pub env : Env
env = record {
  sanitize = λ h req. ok found;
  complete = λ h provider req. ok (txt "answer");
  record_request = λ h rec. true;
  record_termination = λ h rec. some (record { assistant_message_id = []; audit_event_id = [] });
  open_incident = λ h inc ev. created;
  retriever = none;
  sink = λ h e. true;
  now = λ h. 0;
  new_token = λ h. some (txt "t1");
  sha256 = λ t. t;
  nfc = λ t. t;
  to_lower = λ t. t;
  cipher = none;
  suspicious = λ t. false;
  unmarshal = λ t. none;
  links = λ t. [];
  base64_decode = λ t. none;
}

abbrev pub start : World
start = record {
  history = [];
  previews = new_preview_cache 600;
  token_miss = new_throttle_reporter 5 60;
  policy_revised = new_throttle_reporter 10 3600;
}

abbrev pub question : Request
question = record {
  request_id = txt "r1";
  session_id = txt "s1";
  user_id = txt "u1";
  user_role = txt "user";
  message = txt "key 123";
  provider = txt "openai";
  provider_id = txt "p1";
  model_trust = external;
  model = [];
  system_prompt = [];
  preview_token = [];
  api_key_override = [];
  rag = none;
  review = none;
}

abbrev prepared : Prepared
prepared = record {
  preview = found;
  outcome = decide default_policy (to_policy_input found external (txt "user"));
  pmap = empty_map;
  system_prompt_for_llm = [];
  system_prompt_sha256 = [];
  review_system_prompts = [];
}

prepare_run : (prepare env question start).0 ≡ ok prepared
unfolding prepare resolve_sanitize consume_preview report_token_miss fresh_sanitize call_sanitizer
    build_pseudonym_map build_loop sort_by_start sort_by build_encrypted_mappings
    sanitize_system_prompt sanitize_review_prompts call_record_request pure ◌>>=◌ trim_space
prepare_run = refl

prepared_blocked : is_blocking prepared.outcome.decision ≡ true
unfolding decide decide_rules default_policy has_class_in to_policy_input
prepared_blocked = refl

prepare_once : {p q : Prepared} (r : Result Failure Prepared) → r ≡ ok p → r ≡ ok q → p ≡ q
prepare_once r h k = ground arith

always_blocked :
    (p : Prepared) (w : World)
    → Yields (prepare env question) start p w
    → is_blocking p.outcome.decision ≡ true
always_blocked p w y =
    subst (λ x. is_blocking x.outcome.decision ≡ true) (prepare_once _ prepare_run y.result)
      prepared_blocked

handle-Silent_example :
    model_calls (handle env question start).1.history ≡ model_calls start.history
handle-Silent_example = handle-Silent env question start always_blocked

abbrev confirmed : Request
confirmed = record question { message = txt "file.txt"; preview_token = txt "t1" }

abbrev gated : World
gated = (preview env question start).1

gate_run : (preview env question start).0 ≡ ok (found, txt "t1")
unfolding preview call_sanitizer build_pseudonym_map build_loop sort_by_start sort_by put_preview
    put pure ◌>>=◌
gate_run = refl

token_nonempty : is_empty (txt "t1") ≡ false
unfolding txt
token_nonempty = refl

same_cache : gated.previews ≡ resume gated.previews []
unfolding resume
same_cache = refl

in_time : 0 ≤ 0 + start.previews.ttl
in_time = ground arith

resolve_sanitize-preview_example :
    (pmap : PseudonymMap) × (build_pseudonym_map (sha256_hex env) (txt "key 123") [] ≡ ok pmap)
    × ((resolve_sanitize env confirmed gated).0 ≡ ok (found, pmap))
    × ((resolve_sanitize env confirmed gated).1.history ≡ gated.history)
resolve_sanitize-preview_example =
    resolve_sanitize-preview env question confirmed start gated gated found (txt "t1") []
      (record { result = gate_run; world = refl }) token_nonempty refl refl same_cache tt in_time

abbrev masked : Action
masked = record { call_llm = true; send_text = []; restore = true; summary_mode = false }

deliver_run :
    (deliver env question found prepared.outcome empty_map masked [] (txt "hello") start).0 ≡ ok tt
unfolding txt deliver final_texts remask replace detect_leak call_record_termination emit_status
    send_deltas chunk_text chunk_loop finish create_auto_incident_if_needed auto_incident_trigger
    call_open_incident send pure ◌>>=◌ decide decide_rules default_policy has_class_in
    to_policy_input
deliver_run = refl

deltas-deliver_example :
    let after =
      (deliver env question found prepared.outcome empty_map masked [] (txt "hello") start).1 in
    (deltas_of after.history ≡ deltas_of start.history)
    ⊎ ((ids : ChatTerminationIds) × (env.record_termination start.history (
            termination_record question found prepared.outcome chat_response
              (final_texts masked empty_map (txt "hello")).0
              (detect_leak env.nfc env.to_lower empty_map (txt "hello")))
          ≡ some ids)
        × (deltas_of after.history
            ≡ deltas_of start.history ++ (final_texts masked empty_map (txt "hello")).1))
deltas-deliver_example =
    deltas-deliver env question found prepared.outcome empty_map masked [] (txt "hello") start
      (deliver env question found prepared.outcome empty_map masked [] (txt "hello") start).1
      (record { result = deliver_run; world = refl })
