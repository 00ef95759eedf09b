-- ===== src/Chat/Review/Messages.antt =====
-- What is sent to the reviewing models and back to the main model: orchestrator_review.go.
use rubez_ai.Prelude.{
  ℕ, ◌≤◌, Bool, true, false, ◌&&◌, Option, none, some, List, [], ◌∷◌, ◌++◌, arith, ltb, ◌==◌,
  if◌then◌else◌, Text, txt, is_empty, trim_space,
}
use rubez_ai.Prelude.Int.{ℤ, pos, negsuc}
use rubez_ai.Sanitizer.{PreviewResponse}
use rubez_ai.Pseudonym.{PseudonymMap, len}
use rubez_ai.Chat.Types.{ChatMessage, user, ReviewParams, Request}
use rubez_ai.Chat.Decision.{Action, system_message}
use rubez_ai.Chat.Rag.{decimal}
use rubez_ai.Chat.Review.Verdict.{ReviewFinding, trim_issue}

abbrev pub default_model_review_rounds : ℕ
default_model_review_rounds = 3

abbrev pub max_model_review_rounds : ℕ
max_model_review_rounds = 5

-- `params` is nil, or the number is not positive: the default.
abbrev pub clamp_rounds : ℤ → ℕ
clamp_rounds (negsuc n) = default_model_review_rounds
clamp_rounds (pos n) =
    if n == 0
    then default_model_review_rounds
    else if ltb max_model_review_rounds n
    then max_model_review_rounds
    else n

unfoldable pub review_max_rounds : Option ReviewParams → ℕ
review_max_rounds none = default_model_review_rounds
review_max_rounds (some params) = clamp_rounds params.max_rounds

-- The number of rounds is from 1 to 5.
pub review_max_rounds_bounds :
    (params : Option ReviewParams)
    → (1 ≤ review_max_rounds params) × (review_max_rounds params ≤ max_model_review_rounds)
unfolding review_max_rounds
review_max_rounds_bounds params = ground arith

abbrev pub has_providers : ReviewParams → Bool
has_providers params = elim (params.providers) [ [] ↦ false | _ ∷ _ ↦ true ]

unfoldable pub should_run_model_review : Request → Bool
should_run_model_review req = elim (req.review) [
  | none ↦ false
  | some params ↦ params.enabled && has_providers params
]

unfoldable pub review_source_text : PreviewResponse → PseudonymMap → Action → Text
review_source_text preview pmap act =
    if ltb 0 (len pmap) then preview.sanitized_text else act.send_text

abbrev pub review_guardrails : Text
review_guardrails =
    txt
      "Работай только с обезличенными данными и псевдонимами. Не раскрывай и не запрашивай реальные ПДн. Верни строго JSON без Markdown: {\"ok\":true,\"issues\":[]} если черновик можно отдавать пользователю, или {\"ok\":false,\"issues\":[\"короткое замечание\"]} если нужны правки. Не возвращай финальный текст ответа, только вердикт."

abbrev pub default_review_system_prompt : Text
default_review_system_prompt =
    txt
      "Ты модель-ревизор. Проверь черновик ответа другой модели на полноту, точность, противоречия и безопасность. "
    ++ review_guardrails

abbrev pub user_message : Text → ChatMessage
user_message content = record { role = user; content = content }

unfoldable pub build_review_messages : Text → Text → Text → List ChatMessage
build_review_messages source_text draft system_prompt =
    let p = trim_space system_prompt in
    system_message (
      if is_empty p
      then default_review_system_prompt
      else p ++ (txt "\n\nОбязательные ограничения платформы: " ++ review_guardrails))
    ∷ user_message (
        txt "Обезличенный запрос пользователя:\n"
        ++ (source_text ++ (txt "\n\nЧерновик ответа:\n" ++ draft)))
    ∷ []

unfoldable pub issue_lines : Text → List Text → Text
unfolding trim_issue
issue_lines provider [] = []
issue_lines provider (issue ∷ issues) =
    let rest = issue_lines provider issues in
    if is_empty (trim_space issue)
    then rest
    else txt "- " ++ (provider ++ (txt ": " ++ (trim_issue issue ++ (10 ∷ rest))))

unfoldable pub finding_lines : List ReviewFinding → Text
unfolding issue_lines
finding_lines [] = []
finding_lines (f ∷ fs) = issue_lines f.provider f.issues ++ finding_lines fs

unfoldable pub format_review_findings : List ReviewFinding → Text
unfolding finding_lines
format_review_findings findings =
    let out = trim_space (finding_lines findings) in
    if is_empty out then txt "- замечания не распознаны" else out

unfoldable pub build_revision_messages : Text → Text → List ReviewFinding → Text → List ChatMessage
unfolding format_review_findings
build_revision_messages source_text draft findings system_prompt =
    let p = trim_space system_prompt in
    system_message (
      (if is_empty p
        then txt "Ты основная модель. Доработай черновик ответа по замечаниям ревизоров."
        else p)
      ++ txt
          "\n\nОбязательные ограничения платформы: работай только с обезличенными данными и псевдонимами. Верни только финальную версию ответа для пользователя: без комментариев о ревизии, без оценок и без служебного JSON.")
    ∷ user_message (
        txt "Обезличенный запрос пользователя:\n"
        ++ (source_text
            ++ (txt "\n\nТекущий черновик ответа:\n"
                ++ (draft
                    ++ (txt "\n\nЗамечания ревизоров:\n" ++ format_review_findings findings)))))
    ∷ []

unfoldable pub fallback_review_text : Text → ℕ → List ReviewFinding → Text
unfolding format_review_findings
fallback_review_text current max_rounds findings =
    txt "Вот что получилось после всех циклов ревизии ("
    ++ (decimal max_rounds
        ++ (txt "/"
            ++ (decimal max_rounds
                ++ (txt "). Проверяющие модели всё ещё оставили замечания:\n\n"
                    ++ (format_review_findings findings ++ (txt "\n\n" ++ trim_space current))))))
