-- ===== src/Pseudonym/Leak.antt =====
-- The leak detector: rubezh-api/internal/chat/leak.go. The normal form NFC is of a third-party
-- package, and lower case follows the Unicode tables: both are parameters.
use rubez_ai.Prelude.{
  ◌≡◌, ◌↔◌, inl, inr, true, false, List, [], ◌∷◌, if◌then◌else◌, Bool-cases, Any, here, there, Text,
  is_empty, contains, text_lt,
}
use rubez_ai.Prelude.Sort.{sort_by, Any-sort_by, Any-of_sort}
use rubez_ai.Prelude.Dict.{Dict}
use rubez_ai.Pseudonym.{PseudonymMap}

module _ (nfc to_lower : Text → Text) where
  unfoldable pub normalize_for_leak : Text → Text
  normalize_for_leak s = to_lower (nfc s)

  -- The pseudonyms whose values are in the haystack, in the order of the map.
  unfoldable pub leak_loop : Text → Dict Text → List Text
  leak_loop haystack [] = []
  leak_loop haystack ((pseudonym, raw) ∷ d) =
      let rest = leak_loop haystack d in
      if is_empty raw
      then rest
      else if contains (normalize_for_leak raw) haystack
      then pseudonym ∷ rest
      else rest

  unfoldable pub detect_leak : PseudonymMap → Text → List Text
  unfolding leak_loop sort_by
  detect_leak m output = elim (m.to_raw) [
    | [] ↦ []
    | _ ∷ _ ↦ sort_by text_lt (leak_loop (normalize_for_leak output) m.to_raw)
  ]

  -- An entry of the map for the pseudonym whose raw value, in normal form, is in the output, in
  -- normal form.
  abbrev IsLeak : Text → Text → Text × Text → Type 0
  IsLeak p output e =
      (e.0 ≡ p)
      × (is_empty e.1 ≡ false)
      × (contains (normalize_for_leak e.1) (normalize_for_leak output) ≡ true)

  sound_head :
      (p q r output : Text) (d : Dict Text)
      → is_empty r ≡ false
      → contains (normalize_for_leak r) (normalize_for_leak output) ≡ true
      → (Any (λ x. x ≡ p) (leak_loop (normalize_for_leak output) d) → Any (IsLeak p output) d)
      → Any (λ x. x ≡ p) (q ∷ leak_loop (normalize_for_leak output) d)
      → Any (IsLeak p output) ((q, r) ∷ d)
  sound_head p q r output d e c k (here h) = here (h, e, c)
  sound_head p q r output d e c k (there a) = there (k a)

  complete_tail :
      (p output q r : Text) (d : Dict Text)
      → Any (λ x. x ≡ p) (leak_loop (normalize_for_leak output) d)
      → Any (λ x. x ≡ p) (leak_loop (normalize_for_leak output) ((q, r) ∷ d))
  unfolding leak_loop
  complete_tail p output q r d a = elim (Bool-cases (is_empty r)) [
    | inl e ↦ rw e a
    | inr e ↦ elim (Bool-cases (contains (normalize_for_leak r) (normalize_for_leak output))) [
      | inl c ↦ rw (e, c) (there a)
      | inr c ↦ rw (e, c) a
    ]
  ]

  loop_sound :
      (p output : Text) (d : Dict Text)
      → Any (λ q. q ≡ p) (leak_loop (normalize_for_leak output) d)
      → Any (IsLeak p output) d
  unfolding leak_loop
  loop_sound p output [] a = elim a [ ]
  loop_sound p output ((q, r) ∷ d) a = elim (Bool-cases (is_empty r)) [
    | inl e ↦ there (loop_sound p output d (rw e at a))
    | inr e ↦ elim (Bool-cases (contains (normalize_for_leak r) (normalize_for_leak output))) [
      | inl c ↦ sound_head p q r output d e c (loop_sound p output d) (rw (e, c) at a)
      | inr c ↦ there (loop_sound p output d (rw (e, c) at a))
    ]
  ]

  loop_complete :
      (p output : Text) (d : Dict Text)
      → Any (IsLeak p output) d
      → Any (λ q. q ≡ p) (leak_loop (normalize_for_leak output) d)
  unfolding leak_loop
  loop_complete p output [] a = elim a [ ]
  loop_complete p output ((q, r) ∷ d) (here h) = rw (h.1, h.2) (here (h.0))
  loop_complete p output ((q, r) ∷ d) (there a) =
      complete_tail p output q r d (loop_complete p output d a)

  IsLeak-dict :
      (d : Dict Text) (output p : Text)
      → Any (λ q. q ≡ p) (detect_leak (record { to_raw = d }) output) ↔ Any (IsLeak p output) d
  unfolding detect_leak
  IsLeak-dict [] output p = (λ a. elim a [ ], λ a. elim a [ ])
  IsLeak-dict (e ∷ d) output p = (
    λ a. loop_sound p output (e ∷ d) (Any-of_sort text_lt (λ q. q ≡ p) _ a),
    λ a. Any-sort_by text_lt (λ q. q ≡ p) _ (loop_complete p output (e ∷ d) a),
  )

  -- The same, with the normal form and the lower case written out.
  abbrev pub Leaks : Text → Text → Text × Text → Type 0
  Leaks p output e =
      (e.0 ≡ p)
      × (is_empty e.1 ≡ false)
      × (contains (to_lower (nfc e.1)) (to_lower (nfc output)) ≡ true)

  -- The detector reports a pseudonym exactly when its entry in the map has a nonempty value that is
  -- part of the output, both taken in normal form and lower case.
  pub detect_leak-Leaks :
      (m : PseudonymMap) (output p : Text)
      → Any (λ q. q ≡ p) (detect_leak m output) ↔ Any (Leaks p output) m.to_raw
  unfolding normalize_for_leak
  detect_leak-Leaks m output p = IsLeak-dict m.to_raw output p
