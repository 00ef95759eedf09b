-- ===== src/Api/Http.antt =====
-- What a handler answers: `http.Error` with a status and a text, or a value written as JSON.
use rubez_ai.Prelude.{Bool, true, false, ℕ, String, Option, none, some, Text, txt}
use rubez_ai.Prelude.Result.{Result, ok, err}

pub record HttpError : Type 0 where
  pub status : ℕ
  pub message : Text

abbrev pub Reply {ℓ} : Type ℓ → Type ℓ
Reply A = Result HttpError A

-- `http.Error(w, message, status)` and the return after it.
unfoldable pub http_error {ℓ} : {A : Type ℓ} → String → ℕ → Reply A
unfolding txt
http_error message status = err (record { status = status; message = txt message })

-- The comparison of a pointer with nil.
abbrev pub is_nil {ℓ} : {A : Type ℓ} → Option A → Bool
is_nil none = true
is_nil (some a) = false

-- What holds of the value, when the answer is no error.
abbrev pub OnOk {ℓ κ} : {A : Type ℓ} → (A → Type κ) → Reply A → Type κ
OnOk P (ok a) = P a
OnOk P (err e) = Unit
