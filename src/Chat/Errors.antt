-- ===== src/Chat/Errors.antt =====
-- What a user and the metrics are told of an error: `classifyLLMError` and `classifySanitizeError` of
-- rubezh-api/internal/chat/orchestrator.go. `to_lower` follows the Unicode tables.
use rubez_ai.Prelude.{
  ◌≡◌, Bool, true, false, ◌&&◌, ◌||◌, Option, none, some, List, [], ◌∷◌, arith, if◌then◌else◌, Text,
  txt, text_eq, is_empty, contains, text_eq_refl,
}

-- What the code asks of a Go error: the error's text, and what `errors.Is` and `errors.As` find in
-- its chain.
pub record GoError : Type 0 where
  pub message : Text
  pub is_deadline_exceeded : Bool
  pub is_canceled : Bool
  pub timeout : Bool
  pub is_op_error : Bool
  pub is_eof : Bool
  pub is_unexpected_eof : Bool

unfoldable pub classify_llm_error : (Text → Text) → Option GoError → Text → Text
classify_llm_error to_lower none content =
    if is_empty content then txt "модель вернула пустой ответ" else txt "ошибка вызова модели"
classify_llm_error to_lower (some err) content =
    let msg = to_lower err.message in
    if contains (txt "401") msg || contains (txt "unauthorized") msg
    then txt "API-ключ недействителен (HTTP 401). Проверьте Модели → Изменить API-ключ."
    else if contains (txt "403") msg || contains (txt "forbidden") msg
    then txt "доступ к модели запрещён (HTTP 403)"
    else if contains (txt "404") msg
    then txt "модель не найдена у провайдера (проверьте имя модели в picker'е)"
    else if contains (txt "429") msg || contains (txt "rate") msg
    then txt "превышен лимит запросов (HTTP 429), повторите через минуту"
    else if contains (txt "timeout") msg || contains (txt "deadline") msg
    then txt "таймаут вызова модели (>60s)"
    else if contains (txt "no such host") msg || contains (txt "connection refused") msg
    then txt "endpoint провайдера недоступен (сеть/DNS)"
    else if contains (txt "tls") msg || contains (txt "certificate") msg
    then txt "ошибка TLS при подключении к провайдеру"
    else if contains (txt "5") msg && contains (txt "http") msg
    then txt "провайдер вернул ошибку 5xx — повторите запрос"
    else txt "ошибка вызова модели"

unfoldable pub classify_sanitize_error : (Text → Text) → GoError → Text
classify_sanitize_error to_lower err =
    let msg = to_lower err.message in
    if err.is_deadline_exceeded || err.is_canceled
    then txt "timeout"
    else if err.timeout
    then txt "timeout"
    else if err.is_op_error
    then txt "network"
    else if err.is_eof || err.is_unexpected_eof
    then txt "network"
    else if contains (txt "timeout") msg || contains (txt "deadline") msg
    then txt "timeout"
    else if contains (txt "connection") msg
        || contains (txt "dial") msg
        || contains (txt "refused") msg
    then txt "network"
    else txt "unknown"

-- Every text that a failed model call can show to the user.
abbrev pub llm_messages : List Text
llm_messages =
    txt "модель вернула пустой ответ"
    ∷ txt "ошибка вызова модели"
    ∷ txt "API-ключ недействителен (HTTP 401). Проверьте Модели → Изменить API-ключ."
    ∷ txt "доступ к модели запрещён (HTTP 403)"
    ∷ txt "модель не найдена у провайдера (проверьте имя модели в picker'е)"
    ∷ txt "превышен лимит запросов (HTTP 429), повторите через минуту"
    ∷ txt "таймаут вызова модели (>60s)"
    ∷ txt "endpoint провайдера недоступен (сеть/DNS)"
    ∷ txt "ошибка TLS при подключении к провайдеру"
    ∷ txt "провайдер вернул ошибку 5xx — повторите запрос"
    ∷ []

pub listed : List Text → Text → Bool
listed [] s = false
listed (t ∷ ts) s = text_eq t s || listed ts s

-- Whatever the error of a model call says, the user is shown one of ten fixed texts.
pub classify_llm_error-listed :
    (to_lower : Text → Text) (err : Option GoError) (content : Text)
    → listed llm_messages (classify_llm_error to_lower err content) ≡ true
unfolding classify_llm_error listed
classify_llm_error-listed to_lower err content = ground (
  arith,
  text_eq_refl (txt "модель вернула пустой ответ"),
  text_eq_refl (txt "ошибка вызова модели"),
  text_eq_refl (txt "API-ключ недействителен (HTTP 401). Проверьте Модели → Изменить API-ключ."),
  text_eq_refl (txt "доступ к модели запрещён (HTTP 403)"),
  text_eq_refl (txt "модель не найдена у провайдера (проверьте имя модели в picker'е)"),
  text_eq_refl (txt "превышен лимит запросов (HTTP 429), повторите через минуту"),
  text_eq_refl (txt "таймаут вызова модели (>60s)"),
  text_eq_refl (txt "endpoint провайдера недоступен (сеть/DNS)"),
  text_eq_refl (txt "ошибка TLS при подключении к провайдеру"),
  text_eq_refl (txt "провайдер вернул ошибку 5xx — повторите запрос"),
)
