-- ===== src/Storage/Audit/Order.antt =====
-- storage/audit.go: the order of the list is strict on events with different ids.
use rubez_ai.Prelude.{
  ◌≡◌, refl, ◌⊎◌, inl, inr, true, false, List, [], ◌∷◌, arith, All, All-imp, Text, text_eq, text_lt,
}
use rubez_ai.Prelude.Sorted.{IsStrict, IsChain, AreComparable}
use rubez_ai.Storage.Audit.{AuditEventRow}
use rubez_ai.Storage.Audit.Query.{newer}

text_lt_irrefl : (a : Text) → text_lt a a ≡ false
unfolding text_lt
text_lt_irrefl [] = refl
text_lt_irrefl (a ∷ s) = ground (arith, text_lt_irrefl s)

text_lt-asym : (a b : Text) → text_lt a b ≡ true → text_lt b a ≡ false
unfolding text_lt
text_lt-asym [] [] h = refl
text_lt-asym [] (b ∷ t) h = refl
text_lt-asym (a ∷ s) [] h = cc
text_lt-asym (a ∷ s) (b ∷ t) h = ground (arith, text_lt-asym s t)

text_lt_trans : (a b c : Text) → text_lt a b ≡ true → text_lt b c ≡ true → text_lt a c ≡ true
unfolding text_lt
text_lt_trans [] [] c h k = cc
text_lt_trans [] (b ∷ t) [] h k = cc
text_lt_trans [] (b ∷ t) (c ∷ u) h k = refl
text_lt_trans (a ∷ s) [] c h k = cc
text_lt_trans (a ∷ s) (b ∷ t) [] h k = cc
text_lt_trans (a ∷ s) (b ∷ t) (c ∷ u) h k = ground (arith, text_lt_trans s t u)

text_lt-total : (a b : Text) → text_eq a b ≡ false → (text_lt a b ≡ true) ⊎ (text_lt b a ≡ true)
unfolding text_lt text_eq
text_lt-total [] [] h = cc
text_lt-total [] (b ∷ t) h = inl refl
text_lt-total (a ∷ s) [] h = inr refl
text_lt-total (a ∷ s) (b ∷ t) h = ground (arith, text_lt-total s t)

pub newer-IsStrict : IsStrict newer
newer-IsStrict = record {
  trans = λ a b c h k. ground (arith, h, k, text_lt_trans c.id b.id a.id);
  asym = λ a b h. ground (arith, h, text_lt-asym b.id a.id);
  irrefl = λ a. ground (arith, text_lt_irrefl a.id);
}

-- The ids of a table are different from each other.
abbrev pub AreDistinct : List AuditEventRow → Type 0
AreDistinct [] = Unit
AreDistinct (r ∷ rs) = All (λ s. text_eq r.id s.id ≡ false) rs × AreDistinct rs

newer-total : (r s : AuditEventRow) → text_eq r.id s.id ≡ false → AreComparable newer r s
newer-total r s h = ground (arith, text_lt-total r.id s.id h)

pub AreDistinct-IsChain : (rs : List AuditEventRow) → AreDistinct rs → IsChain newer rs
AreDistinct-IsChain [] d = tt
AreDistinct-IsChain (r ∷ rs) d = (
  All-imp (λ s. text_eq r.id s.id ≡ false) (AreComparable newer r) (λ s h. newer-total r s h) rs
      d.0,
  AreDistinct-IsChain rs d.1,
)
