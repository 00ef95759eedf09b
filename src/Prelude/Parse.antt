-- ===== src/Prelude/Parse.antt =====
-- `strconv.Atoi` and `strconv.ParseBool`, an `int` of 64 bits, and the values of a URL query.
use rubez_ai.Prelude.{
  ℕ, zero, suc, ◌+◌, ◌-◌, ◌*◌, Bool, true, false, ◌&&◌, ◌||◌, Option, none, some, List, [], ◌∷◌,
  if◌then◌else◌, leb, ltb, ◌==◌, Text, txt, text_eq,
}
use rubez_ai.Prelude.Int.{ℤ, pos, negsuc}
use rubez_ai.Prelude.Dict.{Dict, lookup}

unfoldable pub digits_loop : ℕ → Text → Option ℕ
digits_loop n [] = some n
digits_loop n (c ∷ s) =
    let rest = digits_loop (n * 10 + (c - b'0')) s in
    if leb b'0' c && leb c b'9' then rest else none

-- At least one digit.
unfoldable pub digits : Text → Option ℕ
unfolding digits_loop
digits [] = none
digits (c ∷ s) = digits_loop 0 (c ∷ s)

abbrev negated : ℕ → ℤ
negated zero = pos 0
negated (suc n) = negsuc n

-- A value out of the range of 64 bits is an error.
abbrev as_positive : Option ℕ → Option ℤ
as_positive none = none
as_positive (some n) = if ltb n 0x8000000000000000 then some (pos n) else none

abbrev as_negative : Option ℕ → Option ℤ
as_negative none = none
as_negative (some n) = if leb n 0x8000000000000000 then some (negated n) else none

unfoldable pub atoi : Text → Option ℤ
unfolding digits
atoi [] = none
atoi (c ∷ s) =
    if c == b'-'
    then as_negative (digits s)
    else if c == b'+'
    then as_positive (digits s)
    else as_positive (digits (c ∷ s))

abbrev one_of : Text → List Text → Bool
one_of t [] = false
one_of t (u ∷ us) = text_eq t u || one_of t us

unfoldable pub parse_bool : Text → Option Bool
unfolding txt text_eq
parse_bool s =
    if one_of s (txt "1" ∷ txt "t" ∷ txt "T" ∷ txt "TRUE" ∷ txt "true" ∷ txt "True" ∷ [])
    then some true
    else if one_of s (txt "0" ∷ txt "f" ∷ txt "F" ∷ txt "FALSE" ∷ txt "false" ∷ txt "False" ∷ [])
    then some false
    else none

-- `url.Values`: `q[key]`, and `q.Get(key)`.
abbrev pub UrlValues : Type 0
UrlValues = Dict (List Text)

abbrev list_of : Option (List Text) → List Text
list_of none = []
list_of (some vs) = vs

abbrev head_of : List Text → Text
head_of [] = []
head_of (v ∷ vs) = v

unfoldable pub query_all : Text → UrlValues → List Text
unfolding lookup
query_all key q = list_of (lookup key q)

unfoldable pub query_get : Text → UrlValues → Text
unfolding query_all
query_get key q = head_of (query_all key q)
