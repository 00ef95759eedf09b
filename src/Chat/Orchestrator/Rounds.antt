-- ===== src/Chat/Orchestrator/Rounds.antt =====
-- The rounds of review: `runModelReview`. A call of a reviewing model, and of the main model for a
-- revision, has no personal key.
use rubez_ai.Prelude.{
  ℕ, zero, suc, true, false, none, some, List, [], ◌∷◌, ◌++◌, ◌==◌, if◌then◌else◌, Text, txt,
  is_empty, trim_space,
}
use rubez_ai.Prelude.Dict.{Dict, lookup}
use rubez_ai.Prelude.Result.{ok, err}
use rubez_ai.Sanitizer.{PreviewResponse}
use rubez_ai.Pseudonym.{PseudonymMap}
use rubez_ai.Pseudonym.Replace.{remask}
use rubez_ai.Chat.Types.{
  Request, ReviewProvider, ReviewParams, ChatMessage, ChatRequest, review_started, review_round,
  review_call, review_done, review_complete, review_fallback, review_revise, review_revised,
}
use rubez_ai.Chat.Decision.{Action}
use rubez_ai.Chat.Review.Verdict.{ReviewFinding, parse_review_verdict}
use rubez_ai.Chat.Review.Attachments.{
  ReviewAttachment, parse_attachment_block, describe_attachments_for_reviewer,
  split_model_attachment_block, join_model_attachment_block,
}
use rubez_ai.Chat.Review.Messages.{
  review_max_rounds, should_run_model_review, review_source_text, build_review_messages,
  build_revision_messages, fallback_review_text,
}
use rubez_ai.Chat.World.{Env, Step, review_failed, ◌>>=◌, ◌>>◌, pure, stop, call_model}
use rubez_ai.Chat.Orchestrator.Steps.{emit_status}

abbrev without_key : Text → List ChatMessage → ChatRequest
without_key model messages = record { model = model; messages = messages; api_key_override = [] }

-- A prompt that is not in the map is empty.
abbrev prompt_of : Dict Text → Text → Text
prompt_of prompts name = elim (lookup name prompts) [ none ↦ [] | some p ↦ p ]

unfoldable pub remask_previews : PseudonymMap → List ReviewAttachment → List ReviewAttachment
remask_previews pmap [] = []
remask_previews pmap (a ∷ atts) =
    (if is_empty a.text_preview then a else record a { text_preview = remask pmap a.text_preview })
    ∷ remask_previews pmap atts

abbrev reviewer_source : Text → Text → Text
reviewer_source source described =
    if is_empty described then source else source ++ (txt "\n\n" ++ described)

module _ (env : Env) where
  unfoldable pub attachments_for_reviewers : PseudonymMap → Text → Text
  attachments_for_reviewers pmap attachments = describe_attachments_for_reviewer (
      remask_previews pmap
        (parse_attachment_block env.to_lower env.links env.base64_decode attachments))

  module _ (req : Request) (pmap : PseudonymMap) (prompts : Dict Text) where
    -- The loop over the reviewers: what they find in the draft.
    unfoldable pub reviewers_loop : Text → Text → List ReviewProvider → Step (List ReviewFinding)
    reviewers_loop source current [] = pure []
    reviewers_loop source current (reviewer ∷ reviewers) = do
      emit_status env req review_call
      answer ← call_model env reviewer.name (
          without_key reviewer.model
            (build_review_messages source current (prompt_of prompts reviewer.name)))
      elim answer [
        | err _ ↦ stop review_failed
        | ok content ↦ do
          let verdict = parse_review_verdict env.to_lower env.unmarshal (remask pmap content)
          emit_status env req review_done
          rest ← reviewers_loop source current reviewers
          pure (
              if verdict.ok
              then rest
              else record { provider = reviewer.name; issues = verdict.issues } ∷ rest)
      ]

    module _ (params : ReviewParams) (source system_prompt : Text) where
      -- The rounds that are left, the draft, its attachments, and their description.
      unfoldable pub rounds : ℕ → Text → Text → Text → Step Text
      rounds zero current attachments described =
          pure (join_model_attachment_block current attachments)
      rounds (suc left) current attachments described = do
        emit_status env req review_round
        findings ← reviewers_loop (reviewer_source source described) current params.providers
        elim findings [
          | [] ↦ do
            emit_status env req review_complete
            pure (join_model_attachment_block current attachments)
          | f ∷ fs ↦ elim (left == 0) [
            | true ↦ do
              emit_status env req review_fallback
              pure (
                  join_model_attachment_block
                    (fallback_review_text current (review_max_rounds (some params)) (f ∷ fs))
                    attachments)
            | false ↦ do
              emit_status env req review_revise
              answer ← call_model env req.provider (
                  without_key req.model
                    (build_revision_messages source current (f ∷ fs) system_prompt))
              elim answer [
                | err _ ↦ stop review_failed
                | ok content ↦
                    let (next, next_attachments) =
                      split_model_attachment_block (remask pmap content) in
                    let next_text = trim_space next in
                    elim (is_empty next_text) [
                      | true ↦ stop review_failed
                      | false ↦ do
                        emit_status env req review_revised
                        rounds left next_text next_attachments
                            (attachments_for_reviewers pmap next_attachments)
                    ]
              ]
          ]
        ]

  unfoldable pub run_model_review :
      Request → PreviewResponse → PseudonymMap → Action → Text → Text → Dict Text → Step Text
  run_model_review req preview pmap act draft system_prompt prompts =
      if should_run_model_review req
      then elim (req.review) [
        | none ↦ pure draft
        | some params ↦
            let (draft_text, attachments) = split_model_attachment_block (remask pmap draft) in
            do
              emit_status env req review_started
              rounds req pmap prompts params (review_source_text preview pmap act) system_prompt
                  (review_max_rounds (some params)) (trim_space draft_text) attachments
                  (attachments_for_reviewers pmap attachments)
      ]
      else pure draft
