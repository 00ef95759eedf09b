-- ===== src/Chat/Decision.antt =====
-- What the orchestrator does with a decision: rubezh-api/internal/chat/decision.go.
use rubez_ai.Prelude.{
  Bool, true, false, List, [], ◌∷◌, ◌++◌, if◌then◌else◌, Text, txt, is_empty, trim_space,
}
use rubez_ai.Policy.{Decision, allow_raw, allow_masked, allow_summary_only}
use rubez_ai.Chat.Types.{ChatMessage, system, user}

pub record Action : Type 0 where
  pub call_llm : Bool
  pub send_text : Text
  pub restore : Bool
  pub summary_mode : Bool

abbrev no_call : Action
no_call = record { call_llm = false; send_text = []; restore = false; summary_mode = false }

unfoldable pub action_for : Decision → Text → Text → Action
action_for allow_raw original sanitized = record {
  call_llm = true;
  send_text = original;
  restore = false;
  summary_mode = false;
}
action_for allow_masked original sanitized = record {
  call_llm = true;
  send_text = sanitized;
  restore = true;
  summary_mode = false;
}
action_for allow_summary_only original sanitized = record {
  call_llm = true;
  send_text = sanitized;
  restore = false;
  summary_mode = true;
}
action_for _ original sanitized = no_call

abbrev pub system_message : Text → ChatMessage
system_message content = record { role = system; content = content }

unfoldable pub build_llm_messages : Action → Text → List ChatMessage
build_llm_messages act system_prompt =
    let p = trim_space system_prompt in
    (if is_empty p then [] else system_message p ∷ [])
    ++ ((if act.summary_mode
          then system_message (txt "Ответь кратким резюме, не повторяя детали.") ∷ []
          else [])
        ++ record { role = user; content = act.send_text } ∷ [])
