-- ===== src/Prelude/Cut.antt =====
-- `strings.Cut` with a separator of one character.
use rubez_ai.Prelude.{
  ℕ, ◌≡◌, refl, inl, inr, false, Option, none, some, [], ◌∷◌, ◌++◌, arith, ◌==◌, if◌then◌else◌,
  ==_iff, Bool-cases, Option-cases, All, Text,
}

unfoldable pub cut : ℕ → Text → Option (Text × Text)
cut sep [] = none
cut sep (c ∷ s) =
    let rest = cut sep s in
    if c == sep
    then some ([], s)
    else elim rest [ some (before, after) ↦ some (c ∷ before, after) | none ↦ none ]

-- The separator does not occur.
abbrev pub IsFree : ℕ → Text → Type 0
IsFree sep = All (λ c. (c == sep) ≡ false)

pub cut-append : (sep : ℕ) (a b : Text) → IsFree sep a → cut sep (a ++ (sep ∷ b)) ≡ some (a, b)
unfolding cut
cut-append sep [] b h = ground arith
cut-append sep (c ∷ a) b h = rw (h.0, cut-append sep a b h.1)

pub cut-IsFree : (sep : ℕ) (a : Text) → IsFree sep a → cut sep a ≡ none
unfolding cut
cut-IsFree sep [] h = refl
cut-IsFree sep (c ∷ a) h = rw (h.0, cut-IsFree sep a h.1)

pub cut_lem :
    (sep : ℕ) (s before after : Text)
    → cut sep s ≡ some (before, after)
    → s ≡ before ++ (sep ∷ after)
unfolding cut
cut_lem sep [] before after h = cc
cut_lem sep (c ∷ s) before after h = elim (Bool-cases (c == sep)) [
  | inl e ↦ let q = rw e at h in ground (arith, ==_iff c sep)
  | inr e ↦ elim (Option-cases (cut sep s)) [
    | inl n ↦ cc (rw (e, n) at h)
    | inr ((a, b), q) ↦ let ih = cut_lem sep s a b q in let r = rw (e, q) at h in ground arith
  ]
]
