-- ===== src/Llm/Ssh.antt =====
-- llm/ssh_cli.go: the adapter of the models behind the SSH bridge. The bridge is a parameter: it takes
-- the provider's argument, the prompt and the model.
use rubez_ai.Prelude.{
  ℕ, Bool, true, false, not, ◌||◌, List, [], ◌∷◌, ◌++◌, map, ◌==◌, if◌then◌else◌, Text, txt,
  text_eq, is_empty, is_prefix, contains,
}
use rubez_ai.Chat.Types.{Role, ChatMessage}
use rubez_ai.Chat.Records.{join}
use rubez_ai.Chat.Review.Attachments.{trim_newlines}

abbrev one_of : Text → List Text → Bool
one_of t [] = false
one_of t (u ∷ us) = text_eq t u || one_of t us

unfoldable pub valid_ssh_provider_arg : Text → Bool
unfolding txt text_eq
valid_ssh_provider_arg arg =
    one_of arg (txt "codex" ∷ txt "claude" ∷ txt "gemini" ∷ txt "grok" ∷ txt "grok-build" ∷ [])

unfoldable pub default_ssh_model_for : Text → Text
unfolding txt text_eq
default_ssh_model_for arg =
    if text_eq arg (txt "codex")
    then txt "gpt-5.3-codex"
    else if text_eq arg (txt "claude")
    then txt "claude-opus-4-7"
    else if text_eq arg (txt "gemini")
    then txt "Gemini 3.5 Flash (High)"
    else if one_of arg (txt "grok" ∷ txt "grok-build" ∷ [])
    then txt "grok-build"
    else []

-- The names of an adapter that are no names of a model.
unfoldable pub is_alias : Text → Text → Bool
unfolding txt text_eq
is_alias arg model =
    if text_eq arg (txt "codex")
    then one_of model (txt "codex-cli" ∷ txt "gpt-5-codex" ∷ [])
    else if text_eq arg (txt "claude")
    then text_eq model (txt "claude-code-cli")
    else if text_eq arg (txt "gemini")
    then one_of model (txt "gemini-cli" ∷ txt "gemini-2.5-pro" ∷ txt "gemini-3.5-flash" ∷ [])
    else if one_of arg (txt "grok" ∷ txt "grok-build" ∷ [])
    then one_of model (txt "grok" ∷ txt "grok-cli" ∷ [])
    else false

unfoldable pub normalize_ssh_model : Text → Text → Text
unfolding default_ssh_model_for is_alias
normalize_ssh_model arg model =
    if is_empty model || is_alias arg model then default_ssh_model_for arg else model

-- `strings.Split` with a separator of one character: the first part and the others.
unfoldable pub split_parts : ℕ → Text → Text × List Text
split_parts sep [] = ([], [])
split_parts sep (c ∷ s) =
    let rest = split_parts sep s in if c == sep then ([], rest.0 ∷ rest.1) else (c ∷ rest.0, rest.1)

abbrev pub split_on : ℕ → Text → List Text
split_on sep s = (split_parts sep s).0 ∷ (split_parts sep s).1

-- The line reads as the head of a role's block.
unfoldable pub is_marked : Text → Bool
unfolding txt is_prefix
is_marked line =
    is_prefix (txt "[system]") line
    || is_prefix (txt "[user]") line
    || is_prefix (txt "[assistant]") line

unfoldable pub escape_line : Text → Text
unfolding is_marked
escape_line line = if is_marked line then 0x5c ∷ line else line

unfoldable pub escape_ssh_role_markers : Text → Text
unfolding txt contains join split_parts escape_line
escape_ssh_role_markers content =
    if not (contains (txt "[") content)
    then content
    else join (0x0a ∷ []) (map escape_line (split_on 0x0a content))

unfoldable pub ssh_role_text : Role → Text
unfolding txt
ssh_role_text Role.system = txt "system"
ssh_role_text Role.user = txt "user"
ssh_role_text Role.assistant = txt "assistant"
ssh_role_text (Role.other r) = if is_empty r then txt "user" else r

unfoldable pub role_header : Role → Text
unfolding ssh_role_text
role_header r = b'[' ∷ ssh_role_text r ++ (b']' ∷ [])

unfoldable pub prompt_blocks : List ChatMessage → Text
unfolding role_header escape_ssh_role_markers
prompt_blocks [] = []
prompt_blocks (m ∷ ms) =
    role_header m.role
    ++ (0x0a ∷ escape_ssh_role_markers m.content ++ (0x0a ∷ 0x0a ∷ prompt_blocks ms))

abbrev is_user : Role → Bool
is_user Role.user = true
is_user Role.system = false
is_user Role.assistant = false
is_user (Role.other r) = text_eq r (txt "user")

abbrev pub has_user : List ChatMessage → Bool
has_user [] = false
has_user (m ∷ ms) = is_user m.role || has_user ms

unfoldable pub assemble_ssh_prompt : List ChatMessage → Text
unfolding prompt_blocks trim_newlines
assemble_ssh_prompt messages =
    if has_user messages then trim_newlines (prompt_blocks messages) else []
