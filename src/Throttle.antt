-- ===== src/Throttle.antt =====
-- The limiter of auxiliary audit events: rubezh-api/internal/chat/throttle.go. Times and durations
-- are nanoseconds; the mutex makes each call one step.
pub mod Window
use rubez_ai.Prelude.{
  ℕ, zero, suc, ◌+◌, ◌-◌, ◌*◌, ◌/◌, ◌%◌, ◌≤◌, ◌<◌, min, String, ◌≡◌, refl, sym, ap, ◌∙◌, subst, ◌≢◌,
  ◌↔◌, ◌⊎◌, inl, inr, Bool, true, false, not, ◌&&◌, ◌||◌, Option, none, some, List, [], ◌∷◌, ◌++◌,
  map, arith, ltb, leb, ◌==◌, if◌then◌else◌, ltb→lt, lt→ltb, leb→le, ==_iff, tests, Bool-cases,
  Option-cases, length, take, drop, length-append, take-append-drop, length-take, length-drop, All,
  Any, here, there, All-append, Text, txt, text_eq, is_empty, is_prefix, contains, rune_bytes,
  byte_len, text_lt, is_space, trim_left, trim_right, trim_space, text_eq_iff, text_eq_refl,
}
use rubez_ai.Prelude.Dict.{Dict, lookup, insert}

pub record ThrottleState : Type 0 where
  pub count : ℕ
  pub throttled : Bool
  pub reset_at : ℕ

pub record ThrottleReporter : Type 0 where
  pub limit : ℕ
  pub window : ℕ
  pub state : Dict ThrottleState

unfoldable pub new_throttle_reporter : ℕ → ℕ → ThrottleReporter
new_throttle_reporter limit window = record { limit = limit; window = window; state = [] }

-- The user's record, or a new one if there is none or its window is over at `now`.
abbrev pub current : ThrottleReporter → Text → ℕ → ThrottleState
current r user now = elim (lookup user r.state) [
  | none ↦ record { count = 0; throttled = false; reset_at = now + r.window }
  | some st ↦
      if ltb st.reset_at now
      then record { count = 0; throttled = false; reset_at = now + r.window }
      else st
]

-- What `Allow` makes of the record: the record, `allowed` and `shouldEmitThrottled`.
abbrev pub spend : ℕ → ThrottleState → ThrottleState × Bool × Bool
spend limit st =
    if ltb st.count limit
    then (record st { count = st.count + 1 }, true, false)
    else if st.throttled
    then (st, false, false)
    else (record st { throttled = true }, false, true)

unfoldable pub allow : ThrottleReporter → Text → ℕ → ThrottleReporter × Bool × Bool
allow r user now =
    let (st, allowed, emit) = spend r.limit (current r user now) in
    (record r { state = insert user st r.state }, allowed, emit)

-- `Allow` on a nil reporter allows everything.
unfoldable pub allow? : Option ThrottleReporter → Text → ℕ → Option ThrottleReporter × Bool × Bool
unfolding allow
allow? none user now = (none, true, false)
allow? (some r) user now = let (r', allowed, emit) = allow r user now in (some r', allowed, emit)
