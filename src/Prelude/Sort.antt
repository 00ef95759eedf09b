-- ===== src/Prelude/Sort.antt =====
-- `sort.Slice` and `sort.Strings`, of which the code uses that the result is a sorted rearrangement:
-- insertion by the less function.
use rubez_ai.Prelude.{
  suc, ◌≡◌, refl, ap, ◌∙◌, length, inl, inr, Bool, List, [], ◌∷◌, if◌then◌else◌, Bool-cases, All,
  Any, here, there,
}
use mathlib.Core.List.{Perm}
use mathlib.Core.List.Perm

module _ {ℓ} {A : Type ℓ} (less : A → A → Bool) where
  unfoldable pub insert_by : A → List A → List A
  insert_by e [] = e ∷ []
  insert_by e (f ∷ es) = if less f e then f ∷ insert_by e es else e ∷ f ∷ es

  unfoldable pub sort_by : List A → List A
  unfolding insert_by
  sort_by [] = []
  sort_by (e ∷ es) = insert_by e (sort_by es)

module _ {ℓ κ} {A : Type κ} (less : A → A → Bool) (P : A → Type ℓ) where
  All-insert_by : (e : A) (es : List A) → P e → All P es → All P (insert_by less e es)
  unfolding insert_by
  All-insert_by e [] h k = (h, tt)
  All-insert_by e (f ∷ es) h k = elim (Bool-cases (less f e)) [
    | inl b ↦ rw b (k.0, All-insert_by e es h k.1)
    | inr b ↦ rw b (h, k)
  ]

  pub All-sort_by : (es : List A) → All P es → All P (sort_by less es)
  unfolding sort_by
  All-sort_by [] h = tt
  All-sort_by (e ∷ es) h = All-insert_by e (sort_by less es) h.0 (All-sort_by es h.1)

  All-of_insert : (e : A) (es : List A) → All P (insert_by less e es) → P e × All P es
  unfolding insert_by
  All-of_insert e [] h = h
  All-of_insert e (f ∷ es) h = elim (Bool-cases (less f e)) [
    | inl b ↦
        let g : P f × All P (insert_by less e es) = rw b at h in
        let (a, as') = All-of_insert e es g.1 in (a, (g.0, as'))
    | inr b ↦ rw b at h
  ]

  pub All-of_sort : (es : List A) → All P (sort_by less es) → All P es
  unfolding sort_by
  All-of_sort [] h = tt
  All-of_sort (e ∷ es) h =
      let (a, as') = All-of_insert e (sort_by less es) h in (a, All-of_sort es as')

  Any-step :
      (e f : A) {es rest : List A}
      → (Any P rest → Any P (e ∷ es))
      → Any P (f ∷ rest)
      → Any P (e ∷ f ∷ es)
  Any-step e f k (here h) = there (here h)
  Any-step e f k (there h) = elim (k h) [ here a ↦ here a | there b ↦ there (there b) ]

  Any-of_insert : (e : A) (es : List A) → Any P (insert_by less e es) → Any P (e ∷ es)
  unfolding insert_by
  Any-of_insert e [] h = h
  Any-of_insert e (f ∷ es) h = elim (Bool-cases (less f e)) [
    | inl b ↦ Any-step e f (Any-of_insert e es) (rw b at h)
    | inr b ↦ rw b at h
  ]

  Any-tail :
      (e : A) {es rest : List A} → (Any P rest → Any P es) → Any P (e ∷ rest) → Any P (e ∷ es)
  Any-tail e k (here h) = here h
  Any-tail e k (there h) = there (k h)

  pub Any-of_sort : (es : List A) → Any P (sort_by less es) → Any P es
  unfolding sort_by
  Any-of_sort [] h = h
  Any-of_sort (e ∷ es) h = Any-tail e (Any-of_sort es) (Any-of_insert e (sort_by less es) h)

module _ {ℓ κ} {A : Type κ} (less : A → A → Bool) (P : A → Type ℓ) where
  Any-insert_by : (e : A) (es : List A) → Any P (e ∷ es) → Any P (insert_by less e es)
  unfolding insert_by
  Any-insert_by e [] h = h
  Any-insert_by e (f ∷ es) (here h) = elim (Bool-cases (less f e)) [
    | inl b ↦ rw b (there (Any-insert_by e es (here h)))
    | inr b ↦ rw b (here h)
  ]
  Any-insert_by e (f ∷ es) (there (here h)) = elim (Bool-cases (less f e)) [
    | inl b ↦ rw b (here h)
    | inr b ↦ rw b (there (here h))
  ]
  Any-insert_by e (f ∷ es) (there (there h)) = elim (Bool-cases (less f e)) [
    | inl b ↦ rw b (there (Any-insert_by e es (there h)))
    | inr b ↦ rw b (there (there h))
  ]

  pub Any-sort_by : (es : List A) → Any P es → Any P (sort_by less es)
  unfolding sort_by
  Any-sort_by [] h = elim h [ ]
  Any-sort_by (e ∷ es) (here h) = Any-insert_by e (sort_by less es) (here h)
  Any-sort_by (e ∷ es) (there h) = Any-insert_by e (sort_by less es) (there (Any-sort_by es h))

module _ {ℓ} {A : Type ℓ} (less : A → A → Bool) where
  pub insert_by-perm : (e : A) (es : List A) → Perm (insert_by less e es) (e ∷ es)
  unfolding insert_by
  insert_by-perm e [] = Perm.refl (e ∷ [])
  insert_by-perm e (f ∷ es) = elim (Bool-cases (less f e)) [
    | inl b ↦ rw b (Perm.trans (Perm.cons f (insert_by-perm e es)) (Perm.swap e f es))
    | inr b ↦ rw b (Perm.refl (e ∷ f ∷ es))
  ]

  pub sort_by-perm : (es : List A) → Perm (sort_by less es) es
  unfolding sort_by
  sort_by-perm [] = Perm.refl []
  sort_by-perm (e ∷ es) =
      Perm.trans (insert_by-perm e (sort_by less es)) (Perm.cons e (sort_by-perm es))

length-insert_by {ℓ} :
    {A : Type ℓ} (less : A → A → Bool) (e : A) (es : List A)
    → length (insert_by less e es) ≡ suc (length es)
unfolding insert_by
length-insert_by less e [] = refl
length-insert_by less e (f ∷ es) = elim (Bool-cases (less f e)) [
  | inl b ↦ rw b (ap suc (length-insert_by less e es))
  | inr b ↦ rw b refl
]

pub length-sort_by {ℓ} :
    {A : Type ℓ} (less : A → A → Bool) (es : List A) → length (sort_by less es) ≡ length es
unfolding sort_by
length-sort_by less [] = refl
length-sort_by less (e ∷ es) =
    length-insert_by less e (sort_by less es) ∙ ap suc (length-sort_by less es)
