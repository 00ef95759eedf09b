-- ===== src/Pseudonym/Spans.antt =====
-- What a map that was built says of the spans.
use rubez_ai.Prelude.{
  ◌-◌, ◌≤◌, ◌<◌, ◌≡◌, refl, sym, ap, ◌∙◌, subst, ◌⊎◌, inl, inr, false, some, List, [], ◌∷◌, arith,
  Bool-cases, length, drop, length-take, length-drop, All, Any, here, there, Text, text_eq,
  is_empty, text_eq_iff,
}
use rubez_ai.Prelude.Dict.{All-insert}
use rubez_ai.Prelude.Int.{ℤ, pos, ◌≤ℤ◌}
use rubez_ai.Prelude.Dict.{Dict, lookup, insert, lookup-insert, lookup-insert_self}
use rubez_ai.Prelude.Result.{ok}
use rubez_ai.Sanitizer.{Entity}
use mathlib.Core.List.{Perm}
use rubez_ai.Prelude.Sort.{All-sort_by, All-of_sort, Any-of_sort, sort_by-perm}
use rubez_ai.Pseudonym.{
  starts_before, PseudonymMap, raw, sort_by_start, index, slice, build_loop, build_pseudonym_map,
}

-- A span inside the text whose slice has the hash that the sanitizer reports.
pub record IsSpan (hash : Text → Text) (text : Text) (e : Entity) : Type 0 where
  pub start_nonneg : pos 0 ≤ℤ e.start
  pub nonempty : index e.start < index e.end
  pub inside : index e.end ≤ length text
  pub hashed : hash (slice text e) ≡ e.raw_hash

-- Spans in order, none before `lo`, and none overlapping the next.
abbrev pub Apart : ℤ → List Entity → Type 0
Apart lo [] = Unit
Apart lo (e ∷ es) = (lo ≤ℤ e.start) × Apart e.end es

-- An entity that stands for a pseudonym's raw value.
abbrev pub Stands : Text → Text → Text → Entity → Type 0
Stands text p r e = (e.pseudonym ≡ p) × (slice text e ≡ r)

module _ (hash : Text → Text) (text : Text) where
  -- What one round of the loop has tested.
  round :
      (lo : ℤ) (d : Dict Text) (e : Entity) (es : List Entity) (m : PseudonymMap)
      → build_loop hash text lo d (e ∷ es) ≡ ok m
      → IsSpan hash text e
        × (lo ≤ℤ e.start)
        × (build_loop hash text e.end (insert e.pseudonym (slice text e) d) es ≡ ok m)
  unfolding build_loop
  round lo d e es m h = (
    record {
      start_nonneg = ground arith;
      nonempty = ground arith;
      inside = ground arith;
      hashed = ground (arith, text_eq_iff (hash (slice text e)) e.raw_hash);
    },
    ground arith,
    ground arith,
  )

  loop_spans :
      (lo : ℤ) (d : Dict Text) (es : List Entity) (m : PseudonymMap)
      → build_loop hash text lo d es ≡ ok m
      → All (IsSpan hash text) es × Apart lo es
  loop_spans lo d [] m h = (tt, tt)
  loop_spans lo d (e ∷ es) m h =
      let (s, a, next) = round lo d e es m h in
      let (ss, as') = loop_spans e.end (insert e.pseudonym (slice text e) d) es m next in
      ((s, ss), (a, as'))

  -- Where a value of the finished map comes from.
  loop-Stands :
      (lo : ℤ) (d : Dict Text) (es : List Entity) (m : PseudonymMap) (p r : Text)
      → build_loop hash text lo d es ≡ ok m
      → raw m p ≡ some r
      → Any (Stands text p r) es ⊎ (lookup p d ≡ some r)
  unfolding build_loop
  loop-Stands lo d [] m p r h k = inr (ground arith)
  loop-Stands lo d (e ∷ es) m p r h k =
      let (_, _, next) = round lo d e es m h in
      let d' = insert e.pseudonym (slice text e) d in
      let q = lookup-insert e.pseudonym p (slice text e) d in
      elim (loop-Stands e.end d' es m p r next k) [
        | inl a ↦ inl (there a)
        | inr l ↦ elim (Bool-cases (text_eq e.pseudonym p)) [
          | inl same ↦ inl (here ((text_eq_iff e.pseudonym p).0 same, ground (arith, q)))
          | inr differ ↦ inr (ground (arith, q))
        ]
      ]

module _ (hash : Text → Text) (text : Text) (f : Text → Text) where
  -- A value that is there stays, if equal pseudonyms stand for equal values.
  loop_keeps :
      (lo : ℤ) (d : Dict Text) (es : List Entity) (m : PseudonymMap) (p : Text)
      → All (λ e. slice text e ≡ f e.pseudonym) es
      → build_loop hash text lo d es ≡ ok m
      → lookup p d ≡ some (f p)
      → raw m p ≡ some (f p)
  unfolding build_loop
  loop_keeps lo d [] m p c h k = ground arith
  loop_keeps lo d (e ∷ es) m p c h k =
      let (_, _, next) = round hash text lo d e es m h in
      loop_keeps e.end (insert e.pseudonym (slice text e) d) es m p c.1 next (
        ground
          (arith, lookup-insert e.pseudonym p (slice text e) d, text_eq_iff e.pseudonym p, c.0))

  loop_covers :
      (lo : ℤ) (d : Dict Text) (es : List Entity) (m : PseudonymMap)
      → All (λ e. slice text e ≡ f e.pseudonym) es
      → build_loop hash text lo d es ≡ ok m
      → All (λ e. raw m e.pseudonym ≡ some (slice text e)) es
  loop_covers lo d [] m c h = tt
  loop_covers lo d (e ∷ es) m c h =
      let (_, _, next) = round hash text lo d e es m h in
      let d' = insert e.pseudonym (slice text e) d in
      let kept =
        loop_keeps e.end d' es m e.pseudonym c.1 next
          (lookup-insert_self e.pseudonym (slice text e) d ∙ ap some c.0) in
      (kept ∙ ap some (sym c.0), loop_covers e.end d' es m c.1 next)

absurd_lookup : {A : Type 0} (p r : Text) → lookup {V = Text} p [] ≡ some r → A
unfolding lookup
absurd_lookup p r h = cc

module _ (hash : Text → Text) (text : Text) (es : List Entity) (m : PseudonymMap)
    (built : build_pseudonym_map hash text es ≡ ok m) where
  -- If the map is built, every entity's span is nonempty, lies in the text and has the reported hash,
  -- and the entities, rearranged by their starts, do not overlap.
  pub build_pseudonym_map-IsSpan :
      All (IsSpan hash text) es × Perm (sort_by_start es) es × Apart (pos 0) (sort_by_start es)
  unfolding build_pseudonym_map
  build_pseudonym_map-IsSpan =
      let (spans, apart) = loop_spans hash text (pos 0) [] (sort_by_start es) m built in
      (All-of_sort starts_before (IsSpan hash text) es spans, sort_by-perm starts_before es, apart)

  -- If the map is built, each raw value in it is the slice of the text under an entity with that
  -- pseudonym: nothing else gets into the map.
  pub raw-Stands : (p r : Text) → raw m p ≡ some r → Any (Stands text p r) es
  unfolding build_pseudonym_map
  raw-Stands p r look =
      elim (loop-Stands hash text (pos 0) [] (sort_by_start es) m p r built look) [
        | inl a ↦ Any-of_sort starts_before (Stands text p r) es a
        | inr none_there ↦ absurd_lookup p r none_there
      ]

  -- If the map is built and entities with one pseudonym have one value (that of `f`), every
  -- entity's pseudonym is mapped to the slice of the text under it.
  raw-slice :
      (f : Text → Text)
      → All (λ e. slice text e ≡ f e.pseudonym) es
      → All (λ e. raw m e.pseudonym ≡ some (slice text e)) es
  unfolding build_pseudonym_map
  raw-slice f same =
      All-of_sort starts_before (λ e. raw m e.pseudonym ≡ some (slice text e)) es
        (loop_covers hash text f (pos 0) [] (sort_by_start es) m
          (All-sort_by starts_before (λ e. slice text e ≡ f e.pseudonym) es same) built)

round_ok :
    (hash : Text → Text) (text : Text) (lo : ℤ) (d : Dict Text) (e : Entity) (es : List Entity)
    → IsSpan hash text e
    → lo ≤ℤ e.start
    → build_loop hash text lo d (e ∷ es)
      ≡ build_loop hash text e.end (insert e.pseudonym (slice text e) d) es
unfolding build_loop
round_ok hash text lo d e es s a = ground (arith, text_eq_iff (hash (slice text e)) e.raw_hash)

loop_ok :
    (hash : Text → Text) (text : Text) (lo : ℤ) (d : Dict Text) (es : List Entity)
    → All (IsSpan hash text) es
    → Apart lo es
    → (m : PseudonymMap) × (build_loop hash text lo d es ≡ ok m)
loop_ok hash text lo d [] s a = (record { to_raw = d }, unfold build_loop in refl)
loop_ok hash text lo d (e ∷ es) s a =
    let (m, done) = loop_ok hash text e.end (insert e.pseudonym (slice text e) d) es s.1 a.1 in
    (m, round_ok hash text lo d e es s.0 a.0 ∙ done)

-- If all spans are good and, rearranged by their starts, do not overlap, the map is built.
build_pseudonym_map_total :
    (hash : Text → Text) (text : Text) (es : List Entity)
    → All (IsSpan hash text) es
    → Apart (pos 0) (sort_by_start es)
    → (m : PseudonymMap) × (build_pseudonym_map hash text es ≡ ok m)
unfolding build_pseudonym_map
build_pseudonym_map_total hash text es s a =
    loop_ok hash text (pos 0) [] (sort_by_start es)
      (All-sort_by starts_before (IsSpan hash text) es s) a

loop_end :
    (hash : Text → Text) (text : Text) (lo : ℤ) (d : Dict Text) (m : PseudonymMap)
    → build_loop hash text lo d [] ≡ ok m
    → d ≡ m.to_raw
unfolding build_loop
loop_end hash text lo d m h = ground arith

nonempty_of_length : (s : Text) → 0 < length s → is_empty s ≡ false
nonempty_of_length [] h = absurd (omega arith)
nonempty_of_length (c ∷ s) h = refl

loop_values {ℓ} :
    (hash : Text → Text) (text : Text) (Q : Text × Text → Type ℓ) (lo : ℤ) (d : Dict Text)
    (es : List Entity) (m : PseudonymMap)
    → ((e : Entity) → IsSpan hash text e → Q (e.pseudonym, slice text e))
    → build_loop hash text lo d es ≡ ok m
    → All Q d
    → All Q m.to_raw
loop_values hash text Q lo d [] m q h a = subst (λ x. All Q x) (loop_end hash text lo d m h) a
loop_values hash text Q lo d (e ∷ es) m q h a =
    let (s, _, next) = round hash text lo d e es m h in
    loop_values hash text Q e.end (insert e.pseudonym (slice text e) d) es m q next
      (All-insert Q e.pseudonym (slice text e) d (q e s) a)

slice_nonempty :
    (hash : Text → Text) (text : Text) (e : Entity)
    → IsSpan hash text e
    → is_empty (slice text e) ≡ false
slice_nonempty hash text e s = nonempty_of_length (slice text e) (
    omega (
      arith,
      length-take (index e.end - index e.start) (drop (index e.start) text),
      length-drop (index e.start) text,
      s.nonempty,
      s.inside,
    ))

-- No raw value of a map that was built is empty.
pub to_raw_nonempty :
    (hash : Text → Text) (text : Text) (es : List Entity) (m : PseudonymMap)
    → build_pseudonym_map hash text es ≡ ok m
    → All (λ e. is_empty e.1 ≡ false) m.to_raw
unfolding build_pseudonym_map
to_raw_nonempty hash text es m h =
    loop_values hash text (λ e. is_empty e.1 ≡ false) (pos 0) [] (sort_by_start es) m
      (slice_nonempty hash text) h tt
