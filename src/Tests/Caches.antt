-- ===== src/Tests/Caches.antt =====
-- The preview cache and the limiter in short histories.
use rubez_ai.Prelude.{
  ℕ, suc, ◌≤◌, min, ◌≡◌, refl, false, none, some, List, [], ◌∷◌, arith, ltb, if◌then◌else◌, Any,
  Text, txt, text_eq,
}
use rubez_ai.Prelude.Dict.{lookup, insert, erase}
use rubez_ai.Policy.{low}
use rubez_ai.Pseudonym.{empty_map}
use rubez_ai.Preview.{PreviewResult, new_preview_cache, put, consume, prune}
use rubez_ai.Preview.Origin.{Op, put_op, consume_op, step, replay, Stored, consume-Stored}
use rubez_ai.Preview.Once.{resume, consume_once}
use rubez_ai.Throttle.{ThrottleReporter}
use rubez_ai.Throttle.Window.{Call, tally, calls_of, IsClosed, Within, tally-window}

abbrev preview : PreviewResult
preview = record {
  preview = record {
    sanitized_text = txt "hello";
    entities = [];
    risk = record { level = low; classes = []; score = 0 };
    mapping_id = none;
  };
  pmap = empty_map;
}

abbrev alice : Text
alice = txt "alice"

abbrev bob : Text
bob = txt "bob"

abbrev history : List Op
history = put_op (some (txt "t1")) 5 5 preview alice (txt "s") ∷ []

stored_consume : (consume (replay 10 history) (txt "t1") alice 7).1 ≡ some preview
unfolding txt text_eq consume replay step put prune insert lookup erase new_preview_cache
stored_consume = refl

consume-Stored_example :
    (end : ℕ) × (7 ≤ end) × Any (Stored 10 (txt "t1") preview alice end) history
consume-Stored_example = consume-Stored 10 history (txt "t1") alice 7 preview stored_consume

consume_once_example :
    (consume
      (resume (consume (replay 10 history) (txt "t1") bob 6).0 (consume_op (txt "t2") alice 6 ∷ []))
      (txt "t1")
      alice
      7).1
    ≡ none
consume_once_example =
    consume_once (replay 10 history) (txt "t1") bob alice 6 7 (consume_op (txt "t2") alice 6 ∷ [])
      (tt, tt)

other_token : text_eq (txt "t2") (txt "t1") ≡ false
unfolding txt text_eq
other_token = refl

abbrev two : ThrottleReporter
two = record { limit = 2; window = 10; state = [] }

abbrev calls : List Call
calls = (alice, 4) ∷ (bob, 5) ∷ (alice, 6) ∷ []

two-IsClosed : IsClosed two alice 3
unfolding lookup
two-IsClosed = λ st h. absurd (ground arith)

calls-Within : Within alice 13 calls
calls-Within = ((λ h. omega arith), ((λ h. omega arith), ((λ h. omega arith), tt)))

tally-window_example :
    let n = suc (calls_of alice calls) in
    ((tally alice two ((alice, 3) ∷ calls)).0 ≡ min n 2)
    × ((tally alice two ((alice, 3) ∷ calls)).1 ≡ (if ltb 2 n then 1 else 0))
tally-window_example = tally-window two alice 3 calls two-IsClosed calls-Within
