-- ===== src/Throttle/Window.antt =====
-- One window of one user, with the calls of other users in between.
use rubez_ai.Prelude.{
  ℕ, suc, ◌+◌, ◌-◌, ◌≤◌, ◌<◌, min, ◌≡◌, refl, ap, ◌∙◌, inl, inr, true, false, some, List, [], ◌∷◌,
  arith, ltb, if◌then◌else◌, Bool-cases, Option-cases, All, Text, text_eq, text_eq_iff,
  text_eq_refl,
}
use native.Mathlib.Nat.{sub-zero}
use rubez_ai.Prelude.Dict.{lookup, lookup-insert_ne, lookup-insert_self}
use rubez_ai.Throttle.{ThrottleState, ThrottleReporter, current, spend, allow}

-- A call: the user and the time.
abbrev pub Call : Type 0
Call = Text × ℕ

-- How many of a user's calls are allowed, and how many report the limit.
unfoldable pub tally : Text → ThrottleReporter → List Call → ℕ × ℕ
tally u r [] = (0, 0)
tally u r ((v, t) ∷ calls) =
    let (r', allowed, emit) = allow r v t in
    let (a, e) = tally u r' calls in
    if text_eq v u then ((if allowed then suc a else a), (if emit then suc e else e)) else (a, e)

unfoldable pub calls_of : Text → List Call → ℕ
calls_of u [] = 0
calls_of u ((v, t) ∷ calls) = if text_eq v u then suc (calls_of u calls) else calls_of u calls

-- The user's calls come no later than `end`.
abbrev pub Within : Text → ℕ → List Call → Type 0
Within u end = All (λ c. text_eq c.0 u ≡ true → c.1 ≤ end)

-- What is left of the limit, and whether the report is still due.
abbrev left : ℕ → ThrottleState → ℕ
left limit st = limit - st.count

abbrev due : ℕ → ThrottleState → ℕ → ℕ
due limit st n = if st.throttled then 0 else if ltb (left limit st) n then 1 else 0

other_call :
    (r : ThrottleReporter) (u v : Text) (t : ℕ)
    → text_eq v u ≡ false
    → lookup u (allow r v t).0.state ≡ lookup u r.state
unfolding allow
other_call r u v t h = lookup-insert_ne v u _ r.state h

own_call :
    (r : ThrottleReporter) (u : Text) (t : ℕ)
    → lookup u (allow r u t).0.state ≡ some (spend r.limit (current r u t)).0
unfolding allow
own_call r u t = lookup-insert_self u _ r.state

limit-allow : (r : ThrottleReporter) (u : Text) (t : ℕ) → (allow r u t).0.limit ≡ r.limit
unfolding allow
limit-allow r u t = refl

open_window :
    (r : ThrottleReporter) (u : Text) (st : ThrottleState) (t : ℕ)
    → lookup u r.state ≡ some st
    → t ≤ st.reset_at
    → current r u t ≡ st
open_window r u st t h k = ground arith

-- What one call in a window does to what is left and due in it.
spend_step :
    (limit n a e : ℕ) (st : ThrottleState)
    → a ≡ min n (left limit (spend limit st).0)
    → e ≡ due limit (spend limit st).0 n
    → ((if (spend limit st).1 then suc a else a) ≡ min (suc n) (left limit st))
      × ((if (spend limit st).2 then suc e else e) ≡ due limit st (suc n))
spend_step limit n a e st h k = ground arith

reset_at-spend : (limit : ℕ) (st : ThrottleState) → (spend limit st).0.reset_at ≡ st.reset_at
reset_at-spend limit st = ground arith

allow-spend :
    (r : ThrottleReporter) (u : Text) (t : ℕ)
    → ((allow r u t).1 ≡ (spend r.limit (current r u t)).1)
      × ((allow r u t).2 ≡ (spend r.limit (current r u t)).2)
unfolding allow
allow-spend r u t = (refl, refl)

tally_own :
    (u : Text) (r : ThrottleReporter) (st : ThrottleState) (t : ℕ) (calls : List Call)
    → current r u t ≡ st
    → let rest = tally u (allow r u t).0 calls in
      (rest.0 ≡ min (calls_of u calls) (left r.limit (spend r.limit st).0))
        × (rest.1 ≡ due r.limit (spend r.limit st).0 (calls_of u calls))
      → let all = tally u r ((u, t) ∷ calls) in
        (all.0 ≡ min (suc (calls_of u calls)) (left r.limit st))
        × (all.1 ≡ due r.limit st (suc (calls_of u calls)))
unfolding tally
tally_own u r st t calls e h =
    let s = spend_step r.limit (calls_of u calls) _ _ st h.0 h.1 in
    let w = allow-spend r u t in rw (text_eq_refl u, w.0, w.1, e) s

tally_other :
    (u v : Text) (r : ThrottleReporter) (t : ℕ) (calls : List Call)
    → text_eq v u ≡ false
    → tally u r ((v, t) ∷ calls) ≡ tally u (allow r v t).0 calls
unfolding tally
tally_other u v r t calls h = rw h

tally_nil :
    (u : Text) (r : ThrottleReporter) (st : ThrottleState)
    → ((tally u r []).0 ≡ min (calls_of u []) (left r.limit st))
      × ((tally u r []).1 ≡ due r.limit st (calls_of u []))
unfolding tally calls_of
tally_nil u r st = (omega arith, ground arith)

calls_of_cons :
    (u v : Text) (t : ℕ) (calls : List Call)
    → calls_of u ((v, t) ∷ calls)
      ≡ (if text_eq v u then suc (calls_of u calls) else calls_of u calls)
unfolding calls_of
calls_of_cons u v t calls = refl

tally_open :
    (u : Text) (r : ThrottleReporter) (st : ThrottleState) (calls : List Call)
    → lookup u r.state ≡ some st
    → Within u st.reset_at calls
    → ((tally u r calls).0 ≡ min (calls_of u calls) (left r.limit st))
      × ((tally u r calls).1 ≡ due r.limit st (calls_of u calls))
tally_open u r st [] look w = tally_nil u r st
tally_open u r st ((v, t) ∷ calls) look w = elim (Bool-cases (text_eq v u)) [
  | inl p ↦
      let o = open_window r u st t look (w.0 p) in
      let st' = (spend r.limit st).0 in
      let look' : lookup u (allow r u t).0.state ≡ some st' =
        own_call r u t ∙ ap (λ x. some (spend r.limit x).0) o in
      let within : Within u st'.reset_at calls = rw (reset_at-spend r.limit st) (w.1) in
      let ih = tally_open u (allow r u t).0 st' calls look' within in
      rw ((text_eq_iff v u).0 p, calls_of_cons u u t calls, text_eq_refl u)
        (tally_own u r st t calls o (rw (limit-allow r u t) at ih))
  | inr p ↦
      let look' = other_call r u v t p ∙ look in
      let ih = tally_open u (allow r v t).0 st calls look' w.1 in
      rw (tally_other u v r t calls p, calls_of_cons u v t calls, p) (rw (limit-allow r v t) at ih)
]

-- The user has no window open at the time `t`.
abbrev pub IsClosed : ThrottleReporter → Text → ℕ → Type 0
IsClosed r u t = (st : ThrottleState) → lookup u r.state ≡ some st → st.reset_at < t

closed_window :
    (r : ThrottleReporter) (u : Text) (t : ℕ)
    → IsClosed r u t
    → current r u t ≡ record { count = 0; throttled = false; reset_at = t + r.window }
closed_window r u t h = elim (Option-cases (lookup u r.state)) [
  | inl e ↦ ground arith
  | inr (st, e) ↦ let late = h st e in ground arith
]

-- A user's first call when no window of that user is open, at the time t, opens one. Of the calls
-- that follow until t + window, whatever the calls of other users between them, all are allowed up
-- to `limit` calls, counting the opening call, and `limit` if there are more; the limit is
-- reported once if there are more, and not at all otherwise.
pub tally-window :
    (r : ThrottleReporter) (u : Text) (t : ℕ) (calls : List Call)
    → IsClosed r u t
    → Within u (t + r.window) calls
    → let n = suc (calls_of u calls) in
      ((tally u r ((u, t) ∷ calls)).0 ≡ min n r.limit)
      × ((tally u r ((u, t) ∷ calls)).1 ≡ (if ltb r.limit n then 1 else 0))
tally-window r u t calls h w =
    let st : ThrottleState = record { count = 0; throttled = false; reset_at = t + r.window } in
    let o : current r u t ≡ st = closed_window r u t h in
    let st' = (spend r.limit st).0 in
    let look' : lookup u (allow r u t).0.state ≡ some st' =
      own_call r u t ∙ ap (λ x. some (spend r.limit x).0) o in
    let within : Within u st'.reset_at calls = rw (reset_at-spend r.limit st) w in
    let ih = tally_open u (allow r u t).0 st' calls look' within in
    rw (sub-zero r.limit) at (tally_own u r st t calls o (rw (limit-allow r u t) at ih))
