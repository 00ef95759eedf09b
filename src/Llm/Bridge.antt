-- ===== src/Llm/Bridge.antt =====
-- llm/ssh_cli.go: `Complete` of the SSH adapter, and the files of an answer. The bridge takes the
-- adapter's argument, the prompt and the model; it gives `none` on an error.
use rubez_ai.Prelude.{
  ℕ, Bool, true, false, not, ◌&&◌, ◌||◌, Option, none, some, List, [], ◌∷◌, ◌++◌, map, ◌==◌,
  if◌then◌else◌, Text, txt, is_empty, is_space, trim_space,
}
use rubez_ai.Prelude.Result.{Result, ok, err}
use rubez_ai.Chat.Types.{ChatRequest}
use rubez_ai.Chat.Records.{join}
use rubez_ai.Chat.Review.Attachments.{is_suffix, trim_newlines}
use rubez_ai.Llm.Ssh.{normalize_ssh_model, assemble_ssh_prompt}

pub record SshBridgeFile : Type 0 where
  pub name : Text
  pub mime : Text
  pub base64 : Text

-- The field `ok` of the answer is `success`.
pub record SshBridgeResponse : Type 0 where
  pub success : Bool
  pub model : Text
  pub content : Text
  pub files : List SshBridgeFile

pub record ChatResponse : Type 0 where
  pub content : Text
  pub model : Text

pub data SshError : Type 0 where
  cancelled empty_prompt bridge_call_failed invalid_response not_ok empty_answer : SshError

-- `strings.NewReplacer("\r", " ", "\n", " ", "[", "_", "]", "_")`
unfoldable pub safe_char : ℕ → ℕ
safe_char c = if c == 0x0d || c == 0x0a then 0x20 else if c == b'[' || c == b']' then b'_' else c

-- `strings.Fields`; `word` is the word that is being read.
unfoldable pub fields : Text → Text → List Text
unfolding is_space
fields word [] = if is_empty word then [] else word ∷ []
fields word (c ∷ s) =
    let closed = fields [] s in
    let more = fields (word ++ (c ∷ [])) s in
    if is_space c then (if is_empty word then closed else word ∷ closed) else more

unfoldable pub safe_attachment_name : Text → Text
unfolding trim_space txt join fields safe_char
safe_attachment_name name =
    let trimmed = trim_space name in
    if is_empty trimmed then [] else trim_space (join (txt " ") (fields [] (map safe_char trimmed)))

unfoldable pub mime_or_default : Text → Text
unfolding txt
mime_or_default [] = txt "application/octet-stream"
mime_or_default (c ∷ s) = c ∷ s

unfoldable pub file_line : SshBridgeFile → Text
unfolding txt safe_attachment_name mime_or_default
file_line f =
    let name = safe_attachment_name f.name in
    if is_empty f.base64 || is_empty f.name || is_empty name
    then []
    else txt "- [📎 "
      ++ (name
          ++ (txt "](data:"
              ++ (mime_or_default f.mime ++ (txt ";base64," ++ (f.base64 ++ txt ")\n")))))

unfoldable pub file_lines : List SshBridgeFile → Text
unfolding file_line
file_lines [] = []
file_lines (f ∷ fs) = file_line f ++ file_lines fs

unfoldable pub append_files_to_content : Text → List SshBridgeFile → Text
unfolding txt is_suffix trim_newlines file_lines
append_files_to_content content [] = content
append_files_to_content content (f ∷ fs) = trim_newlines (
    content
    ++ ((if not (is_empty content) && not (is_suffix (txt "\n") content) then txt "\n" else [])
        ++ (txt "\n📎 Файлы:\n" ++ file_lines (f ∷ fs))))

abbrev model_or : Text → Text → Text
model_or d [] = d
model_or d (c ∷ s) = c ∷ s

abbrev no_files : List SshBridgeFile → Bool
no_files [] = true
no_files (f ∷ fs) = false

-- The answer of the bridge, as `Complete` reads it; `model` is the model that was asked for.
unfoldable pub read_response : Text → SshBridgeResponse → Result SshError ChatResponse
unfolding append_files_to_content
read_response model r =
    if not r.success
    then err not_ok
    else if is_empty r.content && no_files r.files
    then err empty_answer
    else ok (record {
      content = append_files_to_content r.content r.files;
      model = model_or model r.model;
    })

module _ (run : Text → Text → Text → Option Text)
    (unmarshal : Text → Option SshBridgeResponse) where
  -- `is_cancelled` is the state of the context.
  unfoldable pub complete : Text → Bool → ChatRequest → Result SshError ChatResponse
  unfolding assemble_ssh_prompt normalize_ssh_model read_response
  complete provider_arg is_cancelled req =
      let prompt = assemble_ssh_prompt req.messages in
      let model = normalize_ssh_model provider_arg req.model in
      if is_cancelled
      then err cancelled
      else if is_empty prompt
      then err empty_prompt
      else elim (run provider_arg prompt model) [
        | none ↦ err bridge_call_failed
        | some out ↦ elim (unmarshal out) [
          | none ↦ err invalid_response
          | some r ↦ read_response model r
        ]
      ]
