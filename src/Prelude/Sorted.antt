-- ===== src/Prelude/Sorted.antt =====
-- Strictly sorted lists: sorting and filtering commute, and what stands after an element is what is
-- greater.
use rubez_ai.Prelude.{
  ◌≡◌, refl, sym, ◌⊎◌, inl, inr, Bool, true, false, List, [], ◌∷◌, ◌++◌, arith, if◌then◌else◌,
  Bool-cases, All, All-imp, keep_if, keep_if-All,
}
use rubez_ai.Prelude.Sort.{insert_by, sort_by, All-sort_by}

-- A strict order.
pub record IsStrict {ℓ} {A : Type ℓ} (less : A → A → Bool) : Type ℓ where
  pub trans : (a b c : A) → less a b ≡ true → less b c ≡ true → less a c ≡ true
  pub asym : (a b : A) → less a b ≡ true → less b a ≡ false
  pub irrefl : (a : A) → less a a ≡ false

module _ {ℓ} {A : Type ℓ} (less : A → A → Bool) where
  abbrev pub IsSorted : List A → Type 0
  IsSorted [] = Unit
  IsSorted (x ∷ xs) = All (λ y. less x y ≡ true) xs × IsSorted xs

  abbrev pub AreComparable : A → A → Type 0
  AreComparable x y = (less x y ≡ true) ⊎ (less y x ≡ true)

  -- Any two elements at different places are comparable.
  abbrev pub IsChain : List A → Type 0
  IsChain [] = Unit
  IsChain (x ∷ xs) = All (AreComparable x) xs × IsChain xs

module _ {ℓ} {A : Type ℓ} (less : A → A → Bool) (o : IsStrict less) where
  All-insert : (P : A → Type 0) (e : A) (es : List A) → P e → All P es → All P (insert_by less e es)
  unfolding insert_by
  All-insert P e [] h k = (h, tt)
  All-insert P e (f ∷ es) h k = elim (Bool-cases (less f e)) [
    | inl b ↦ rw b (k.0, All-insert P e es h k.1)
    | inr b ↦ rw b (h, k)
  ]

  -- An element that stands before the first of a sorted list stands before all of it.
  all_after :
      (e f : A) (es : List A)
      → AreComparable less e f
      → less f e ≡ false
      → IsSorted less (f ∷ es)
      → All (λ y. less e y ≡ true) (f ∷ es)
  all_after e f es c b s =
      let first : less e f ≡ true = elim c [ inl l ↦ l | inr l ↦ cc ] in
      (
        first,
        All-imp (λ y. less f y ≡ true) (λ y. less e y ≡ true) (λ y l. o.trans e f y first l) es s.0,
      )

  insert_by-IsSorted :
      (e : A) (es : List A)
      → All (AreComparable less e) es
      → IsSorted less es
      → IsSorted less (insert_by less e es)
  unfolding insert_by
  insert_by-IsSorted e [] c s = (tt, tt)
  insert_by-IsSorted e (f ∷ es) c s = elim (Bool-cases (less f e)) [
    | inl b ↦ rw b (All-insert (λ y. less f y ≡ true) e es b s.0, insert_by-IsSorted e es c.1 s.1)
    | inr b ↦ rw b (all_after e f es c.0 b s, s)
  ]

  pub sort_by-IsSorted : (xs : List A) → IsChain less xs → IsSorted less (sort_by less xs)
  unfolding sort_by
  sort_by-IsSorted [] c = tt
  sort_by-IsSorted (x ∷ xs) c =
      insert_by-IsSorted x (sort_by less xs) (All-sort_by less (AreComparable less x) xs c.0)
        (sort_by-IsSorted xs c.1)

  insert_by-front :
      (e : A) (es : List A) → All (λ f. less f e ≡ false) es → insert_by less e es ≡ e ∷ es
  unfolding insert_by
  insert_by-front e [] h = refl
  insert_by-front e (f ∷ es) h = rw (h.0) refl

  keep_if-insert_by :
      (q : A → Bool) (e : A) (es : List A)
      → All (AreComparable less e) es
      → IsSorted less es
      → keep_if q (insert_by less e es)
        ≡ (if q e then insert_by less e (keep_if q es) else keep_if q es)
  unfolding insert_by keep_if
  keep_if-insert_by q e [] c s = refl
  keep_if-insert_by q e (f ∷ es) c s = elim (Bool-cases (less f e)) [
    | inl b ↦ ground (arith, b, keep_if-insert_by q e es c.1 s.1)
    | inr b ↦
        let front : insert_by less e (keep_if q (f ∷ es)) ≡ e ∷ keep_if q (f ∷ es) =
          insert_by-front e (keep_if q (f ∷ es)) (
            keep_if-All (λ y. less y e ≡ false) q (f ∷ es)
              (All-imp (λ y. less e y ≡ true) (λ y. less y e ≡ false) (λ y l. o.asym e y l) (f ∷ es)
                (all_after e f es c.0 b s))) in
        elim (Bool-cases (q e)) [ inl k ↦ rw (b, k) (sym front) | inr k ↦ rw (b, k) refl ]
  ]

  pub keep_if-sort_by :
      (q : A → Bool) (xs : List A)
      → IsChain less xs
      → sort_by less (keep_if q xs) ≡ keep_if q (sort_by less xs)
  unfolding sort_by keep_if
  keep_if-sort_by q [] c = refl
  keep_if-sort_by q (x ∷ xs) c =
      let step =
        keep_if-insert_by q x (sort_by less xs) (All-sort_by less (AreComparable less x) xs c.0)
          (sort_by-IsSorted xs c.1) in
      elim (Bool-cases (q x)) [
        | inl k ↦ rw (step, k, keep_if-sort_by q xs c.1) refl
        | inr k ↦ rw (step, k, keep_if-sort_by q xs c.1) refl
      ]

  keep_all : (q : A → Bool) (xs : List A) → All (λ x. q x ≡ true) xs → keep_if q xs ≡ xs
  unfolding keep_if
  keep_all q [] h = refl
  keep_all q (x ∷ xs) h = rw (h.0, keep_all q xs h.1) refl

  -- An element of a list has what all of it has.
  All_middle : (P : A → Type 0) (as' : List A) (r : A) (bs : List A) → All P (as' ++ (r ∷ bs)) → P r
  All_middle P [] r bs h = h.0
  All_middle P (a ∷ as') r bs h = All_middle P as' r bs h.1

  -- What is greater than an element of a sorted list is what stands after it.
  pub keep_if-after :
      (as' : List A) (r : A) (bs : List A)
      → IsSorted less (as' ++ (r ∷ bs))
      → keep_if (less r) (as' ++ (r ∷ bs)) ≡ bs
  unfolding keep_if
  keep_if-after [] r bs s = rw (o.irrefl r) (keep_all (less r) bs s.0)
  keep_if-after (a ∷ as') r bs s =
      rw (o.asym a r (All_middle (λ y. less a y ≡ true) as' r bs s.0)) (keep_if-after as' r bs s.1)
