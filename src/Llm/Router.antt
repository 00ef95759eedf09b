-- ===== src/Llm/Router.antt =====
-- llm/router.go and llm/mock.go: the providers by their names, and the provider of tests. A provider
-- answers a request or fails with a text.
use rubez_ai.Prelude.{
  ◌≡◌, refl, ap, ◌∙◌, Bool, true, false, Option, none, some, List, [], ◌∷◌, ◌++◌, if◌then◌else◌,
  Text, txt, text_eq, is_empty,
}
use rubez_ai.Prelude.Dict.{Dict, lookup, insert, lookup-insert}
use rubez_ai.Prelude.Result.{Result, ok}
use rubez_ai.Chat.Types.{Role, ChatMessage, ChatRequest}
use rubez_ai.Llm.Bridge.{ChatResponse}

pub record Provider : Type 0 where
  pub name : Text
  pub complete : ChatRequest → Result Text ChatResponse

abbrev pub Router : Type 0
Router = Dict Provider

unfoldable pub register : Provider → Router → Router
unfolding insert
register p r = insert p.name p r

-- The loop of `Replace`.
unfoldable pub register_all : List Provider → Router → Router
unfolding register
register_all [] r = r
register_all (p ∷ ps) r = register_all ps (register p r)

unfoldable pub replace : List Provider → Router → Router
unfolding register_all
replace ps r = register_all ps []

abbrev is_some : Option Provider → Bool
is_some none = false
is_some (some p) = true

unfoldable pub has : Text → Router → Bool
unfolding lookup
has name r = is_some (lookup name r)

-- `none` is the error of a provider that is not registered.
unfoldable pub complete : Text → ChatRequest → Router → Option (Result Text ChatResponse)
unfolding lookup
complete name req r = elim (lookup name r) [ none ↦ none | some p ↦ some (p.complete req) ]

-- The last of the providers with the name.
abbrev pub last_named : Text → List Provider → Option Provider → Option Provider
last_named name [] found = found
last_named name (p ∷ ps) found = last_named name ps (if text_eq p.name name then some p else found)

register_all-lookup :
    (name : Text) (ps : List Provider) (r : Router)
    → lookup name (register_all ps r) ≡ last_named name ps (lookup name r)
unfolding register_all register
register_all-lookup name [] r = refl
register_all-lookup name (p ∷ ps) r =
    register_all-lookup name ps (insert p.name p r)
    ∙ ap (last_named name ps) (lookup-insert p.name name p r)

-- After a replacement, whatever was registered before, a request goes to the last of the new
-- providers with the name, and to none when no new provider has it.
pub complete-replace :
    (name : Text) (req : ChatRequest) (ps : List Provider) (r : Router)
    → complete name req (replace ps r)
      ≡ (elim (last_named name ps none) [ none ↦ none | some p ↦ some (p.complete req) ])
unfolding complete replace lookup
complete-replace name req ps r = rw (register_all-lookup name ps [], complete) refl

abbrev user_content : ChatMessage → Text → Text
user_content m last = elim (m.role) [
  | Role.user ↦ m.content
  | Role.system ↦ last
  | Role.assistant ↦ last
  | Role.other r ↦ if text_eq r (txt "user") then m.content else last
]

unfoldable pub last_user : List ChatMessage → Text → Text
last_user [] last = last
last_user (m ∷ ms) last = last_user ms (user_content m last)

unfoldable pub mock_complete : ChatRequest → Result Text ChatResponse
unfolding txt last_user
mock_complete req =
    let last = last_user req.messages [] in
    ok (record {
      content =
          if is_empty last
          then txt "[mock] запрос без пользовательского сообщения"
          else txt "[mock] обработан запрос: " ++ last;
      model = req.model;
    })
