-- ===== src/Pseudonym/Masking.antt =====
-- What `Remask` takes out of a text.
use rubez_ai.Prelude.{
  ℕ, zero, suc, ◌-◌, ◌≡◌, refl, sym, ap, ◌∙◌, subst, ◌≢◌, inl, inr, Bool, true, false, not, ◌&&◌,
  ◌||◌, none, some, List, [], ◌∷◌, ◌++◌, map, arith, Bool-cases, Option-cases, length, All, Any,
  here, there, All-imp, All-map, Any-map, Text, is_empty, is_prefix, contains,
}
use rubez_ai.Prelude.Dict.{All_lookup, Any-lookup}
use rubez_ai.Prelude.Result.{ok}
use rubez_ai.Sanitizer.{Entity}
use rubez_ai.Pseudonym.{build_pseudonym_map}
use rubez_ai.Pseudonym.Spans.{to_raw_nonempty}
use mathlib.Core.Bool.{false≢true}
use rubez_ai.Prelude.Sort.{All-sort_by, Any-sort_by}
use rubez_ai.Prelude.Dict.{Dict, lookup}
use rubez_ai.Pseudonym.{PseudonymMap, raw}
use rubez_ai.Pseudonym.Replace.{
  Pair, pair_less, pair_of, find_match, at_gap, scan, sorted_pairs, remask,
}

-- One of the texts begins with the other.
abbrev pub comparable : Text → Text → Bool
comparable a b = is_prefix a b || is_prefix b a

-- A nonempty end of the first text and the second are comparable: an occurrence of the second can
-- start inside the first.
unfoldable pub touches : Text → Text → Bool
touches [] b = false
touches (c ∷ a) b = comparable (c ∷ a) b || touches a b

-- No occurrence of a raw value overlaps the pseudonym.
abbrev pub Clear : Text → Text → Type 0
Clear r p = (touches p r ≡ false) × (touches r p ≡ false)

prefix_of_append : (a b x : Text) → is_prefix a (b ++ x) ≡ true → comparable a b ≡ true
unfolding is_prefix
prefix_of_append [] b x h = refl
prefix_of_append (c ∷ a) [] x h = refl
prefix_of_append (c ∷ a) (d ∷ b) x h = ground (arith, prefix_of_append a b x)

contains_append :
    (r b x : Text) → touches b r ≡ false → contains r (b ++ x) ≡ true → contains r x ≡ true
unfolding contains touches
contains_append r [] x t h = h
contains_append r (c ∷ b) x t h =
    ground (arith, prefix_of_append r (c ∷ b) x, contains_append r b x)

-- No pattern is empty.
abbrev pub Nonempty : List Pair → Type 0
Nonempty = All (λ p. is_empty p.from ≡ false)

abbrev pub ClearOf : Text → List Pair → Type 0
ClearOf r = All (λ p. Clear r p.to)

not_true : {b : Bool} → ¬ (b ≡ true) → b ≡ false
not_true {b} h = elim (Bool-cases b) [ inl e ↦ absurd (h e) | inr e ↦ e ]

at_gap_nil : (ps : List Pair) → Nonempty ps → at_gap ps ≡ []
unfolding at_gap
at_gap_nil [] h = refl
at_gap_nil (p ∷ ps) h = ground (arith, at_gap_nil ps h.1)

All_find {ℓ} :
    (Q : Pair → Type ℓ) (ps : List Pair) (s : Text) (p : Pair)
    → All Q ps
    → find_match ps s ≡ some p
    → Q p
unfolding find_match
All_find Q [] s p h f = cc
All_find Q (q ∷ ps) s p h f = elim (Bool-cases (not (is_empty q.from) && is_prefix q.from s)) [
  | inl e ↦ let same : q ≡ p = ground arith in subst Q same h.0
  | inr e ↦ All_find Q ps s p h.1 (rw e at f)
]

find_hit :
    (ps : List Pair) (r s : Text)
    → Any (λ p. p.from ≡ r) ps
    → is_empty r ≡ false
    → is_prefix r s ≡ true
    → find_match ps s ≢ none
unfolding find_match
find_hit [] r s a n h = elim a [ ]
find_hit (p ∷ ps) r s (here e) n h = ground arith
find_hit (p ∷ ps) r s (there a) n h = ground (arith, find_hit ps r s a n h)

touches_tail : (a : ℕ) (r b : Text) → touches (a ∷ r) b ≡ false → touches r b ≡ false
unfolding touches
touches_tail a r b h = ground arith

touches_absurd :
    {A : Type 0} (a : ℕ) (r b : Text) → touches (a ∷ r) b ≡ false → comparable (a ∷ r) b ≡ true → A
unfolding touches
touches_absurd a r b h k = absurd (ground arith)

contains_nil : (r : Text) → is_empty r ≡ false → contains r [] ≡ false
unfolding contains
contains_nil [] n = cc
contains_nil (a ∷ r) n = refl

contains_cons :
    (r : Text) (c : ℕ) (s : Text)
    → is_prefix r (c ∷ s) ≡ false
    → contains r s ≡ false
    → contains r (c ∷ s) ≡ false
unfolding contains
contains_cons r c s p t = rw (p, t)

module _ (ps : List Pair) (nonempty : Nonempty ps) where
  scan_keep :
      (c : ℕ) (s : Text) → find_match ps (c ∷ s) ≡ none → scan ps 0 (c ∷ s) ≡ c ∷ scan ps 0 s
  unfolding scan
  scan_keep c s e = rw (e, scan, at_gap_nil ps nonempty)

  scan_match :
      (c : ℕ) (s : Text) (p : Pair)
      → find_match ps (c ∷ s) ≡ some p
      → scan ps 0 (c ∷ s) ≡ p.to ++ scan ps (length p.from - 1) s
  unfolding scan
  scan_match c s p e = rw (e, scan)

  scan_skip : (k c : ℕ) (s : Text) → scan ps (suc k) (c ∷ s) ≡ scan ps k s
  unfolding scan
  scan_skip k c s = refl

  scan_nil : (k : ℕ) → scan ps k [] ≡ []
  unfolding scan
  scan_nil k = at_gap_nil ps nonempty

  -- A text that overlaps no replacement and begins the result begins the text.
  prefix_of_scan :
      (r s : Text)
      → All (λ p. touches r p.to ≡ false) ps
      → is_prefix r (scan ps 0 s) ≡ true
      → is_prefix r s ≡ true
  unfolding is_prefix
  prefix_of_scan [] s t h = refl
  prefix_of_scan (a ∷ r) [] t h = rw (scan_nil 0) at h
  prefix_of_scan (a ∷ r) (c ∷ s) t h = elim (Option-cases (find_match ps (c ∷ s))) [
    | inl e ↦
        let kept : is_prefix (a ∷ r) (c ∷ scan ps 0 s) ≡ true = rw (scan_keep c s e) at h in
        let later = All-imp _ _ (λ p. touches_tail a r p.to) ps t in
        ground (arith, kept, prefix_of_scan r s later)
    | inr (p, e) ↦
        let into : is_prefix (a ∷ r) (p.to ++ scan ps (length p.from - 1) s) ≡ true =
          rw (scan_match c s p e) at h in
        let apart = All_find (λ q. touches (a ∷ r) q.to ≡ false) ps (c ∷ s) p t e in
        touches_absurd a r p.to apart (prefix_of_append (a ∷ r) p.to _ into)
  ]

  module _ (r : Text) (n : is_empty r ≡ false) (found : Any (λ p. p.from ≡ r) ps)
      (clear : ClearOf r ps) where
    ahead : All (λ p. touches r p.to ≡ false) ps
    ahead = All-imp (λ p. Clear r p.to) (λ p. touches r p.to ≡ false) (λ p h. h.1) ps clear

    scan_clear : (k : ℕ) (s : Text) → contains r (scan ps k s) ≡ false
    scan_clear k [] = rw (scan_nil k) (contains_nil r n)
    scan_clear (suc k) (c ∷ s) = rw scan_skip (scan_clear k s)
    scan_clear zero (c ∷ s) = elim (Option-cases (find_match ps (c ∷ s))) [
      | inl e ↦
          let missed : is_prefix r (c ∷ s) ≡ false =
            not_true (λ hit. find_hit ps r (c ∷ s) found n hit e) in
          let kept = scan_keep c s e in
          rw kept (
            contains_cons r c (scan ps 0 s)
              (not_true (λ hit.
                false≢true (sym missed ∙ prefix_of_scan r (c ∷ s) ahead (rw (← kept) at hit))))
              (scan_clear 0 s))
      | inr (p, e) ↦
          let apart = All_find (λ q. Clear r q.to) ps (c ∷ s) p clear e in
          rw (scan_match c s p e) (
            not_true (λ hit. false≢true (
              sym (scan_clear (length p.from - 1) s)
              ∙ contains_append r p.to (scan ps (length p.from - 1) s) apart.0 hit)))
    ]

absurd_nil : {A : Type 0} (p r : Text) → lookup {V = Text} p [] ≡ some r → A
unfolding lookup
absurd_nil p r h = cc

contains_tail : (r : Text) (c : ℕ) (s : Text) → contains r (c ∷ s) ≡ false → contains r s ≡ false
unfolding contains
contains_tail r c s h = ground arith

remask_dict :
    (d : Dict Text) (p r text : Text)
    → lookup p d ≡ some r
    → All (λ e. is_empty e.1 ≡ false) d
    → All (λ e. Clear r e.0) d
    → contains r (remask (record { to_raw = d }) text) ≡ false
unfolding remask
remask_dict [] p r text look n c = absurd_nil p r look
remask_dict (e ∷ d) p r text look n c =
    let pairs = map (pair_of true) (e ∷ d) in
    scan_clear (sorted_pairs true (e ∷ d))
      (All-sort_by pair_less (λ q. is_empty q.from ≡ false) pairs
        (All-map (λ q. is_empty q.from ≡ false) (pair_of true) (e ∷ d) n))
      r (All_lookup (λ x. is_empty x.1 ≡ false) p r (e ∷ d) n look)
      (Any-sort_by pair_less (λ q. q.from ≡ r) pairs
        (Any-map (λ q. q.from ≡ r) (pair_of true) (e ∷ d)
          (Any-lookup (λ x. x.1 ≡ r) p r (e ∷ d) refl look)))
      (All-sort_by pair_less (λ q. Clear r q.to) pairs
        (All-map (λ q. Clear r q.to) (pair_of true) (e ∷ d) c))
      0 text

-- In a map that was built, take a raw value that no pseudonym of the map can overlap. Then no
-- text, whatever a model answered, contains that raw value once `Remask` has replaced the raw
-- values.
pub contains-remask :
    (hash : Text → Text) (source : Text) (es : List Entity) (m : PseudonymMap) (p r text : Text)
    → build_pseudonym_map hash source es ≡ ok m
    → raw m p ≡ some r
    → All (λ e. Clear r e.0) m.to_raw
    → contains r (remask m text) ≡ false
contains-remask hash source es m p r text built look c =
    remask_dict m.to_raw p r text look (to_raw_nonempty hash source es m built) c

find_none :
    (ps : List Pair) (s : Text) → All (λ p. contains p.from s ≡ false) ps → find_match ps s ≡ none
unfolding find_match contains
find_none [] s h = refl
find_none (p ∷ ps) [] h = ground (arith, find_none ps [] h.1)
find_none (p ∷ ps) (c ∷ s) h = ground (arith, find_none ps (c ∷ s) h.1)

scan_same :
    (ps : List Pair) (s : Text)
    → Nonempty ps
    → All (λ p. contains p.from s ≡ false) ps
    → scan ps 0 s ≡ s
scan_same ps [] n h = scan_nil ps n 0
scan_same ps (c ∷ s) n h =
    scan_keep ps n c s (find_none ps (c ∷ s) h)
    ∙ ap (◌∷◌ c) (
        scan_same ps s n (
          All-imp (λ p. contains p.from (c ∷ s) ≡ false) (λ p. contains p.from s ≡ false)
            (λ p k. contains_tail p.from c s k) ps h))

remask_same_dict :
    (d : Dict Text) (text : Text)
    → All (λ e. is_empty e.1 ≡ false) d
    → All (λ e. contains e.1 text ≡ false) d
    → remask (record { to_raw = d }) text ≡ text
unfolding remask
remask_same_dict [] text n h = refl
remask_same_dict (e ∷ d) text n h =
    let pairs = map (pair_of true) (e ∷ d) in
    scan_same (sorted_pairs true (e ∷ d)) text
      (All-sort_by pair_less (λ q. is_empty q.from ≡ false) pairs
        (All-map (λ q. is_empty q.from ≡ false) (pair_of true) (e ∷ d) n))
      (All-sort_by pair_less (λ q. contains q.from text ≡ false) pairs
        (All-map (λ q. contains q.from text ≡ false) (pair_of true) (e ∷ d) h))

-- A text that contains no raw value is left as it is by `Remask`: nothing is masked without need.
pub remask_same :
    (hash : Text → Text) (source : Text) (es : List Entity) (m : PseudonymMap) (text : Text)
    → build_pseudonym_map hash source es ≡ ok m
    → All (λ e. contains e.1 text ≡ false) m.to_raw
    → remask m text ≡ text
remask_same hash source es m text built h =
    remask_same_dict m.to_raw text (to_raw_nonempty hash source es m built) h
