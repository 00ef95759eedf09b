-- ===== src/Api/RateLimit.antt =====
-- api/ratelimit.go: the limit of requests of a user. The token bucket of golang.org/x/time/rate is a
-- parameter; times are in nanoseconds.
use rubez_ai.Prelude.{
  ℕ, ◌+◌, ◌-◌, ◌≡◌, refl, sym, ap, subst, inl, inr, Bool, true, false, ◌&&◌, Option, none, some,
  List, [], ◌∷◌, arith, ltb, leb, if◌then◌else◌, Bool-cases, All, Text, text_eq, is_empty,
  text_eq_iff,
}
use rubez_ai.Prelude.Dict.{Dict, lookup, insert, lookup-insert, lookup-insert_self}

-- `rate.NewLimiter` and `Allow` of a bucket at a time.
pub record Buckets (L : Type 0) : Type 0 where
  pub fresh : L
  pub take_token : ℕ → L → Bool × L

pub record UserRateLimiter (L : Type 0) : Type 0 where
  pub limiters : Dict L
  pub reported : Dict Bool
  pub window_dur : ℕ
  pub last_window : ℕ

module _ {L : Type 0} (buckets : Buckets L) where
  unfoldable pub new_user_rate_limiter : ℕ → UserRateLimiter L
  new_user_rate_limiter now = record {
    limiters = [];
    reported = [];
    window_dur = 60000000000;
    last_window = now;
  }

  -- The marks are dropped when a new window begins.
  unfoldable pub open_window : ℕ → UserRateLimiter L → UserRateLimiter L
  open_window now l =
      if leb l.window_dur (now - l.last_window)
      then record l { reported = []; last_window = now }
      else l

  abbrev pub limiter_of : Option L → L
  limiter_of none = buckets.fresh
  limiter_of (some b) = b

  abbrev pub is_reported : Option Bool → Bool
  is_reported none = false
  is_reported (some b) = b

  -- A bucket's answer: whether the request is allowed, and whether the refusal is audited.
  unfoldable pub answer : Text → UserRateLimiter L → Bool × L → (Bool × Bool) × UserRateLimiter L
  unfolding lookup insert
  answer user_id l (true, b) = ((true, false), record l { limiters = insert user_id b l.limiters })
  answer user_id l (false, b) =
      let kept : UserRateLimiter L = record l { limiters = insert user_id b l.limiters } in
      if is_reported (lookup user_id l.reported)
      then ((false, false), kept)
      else ((false, true), record kept { reported = insert user_id true l.reported })

  unfoldable pub allow : ℕ → Text → UserRateLimiter L → (Bool × Bool) × UserRateLimiter L
  unfolding lookup open_window answer
  allow now user_id l =
      if is_empty user_id
      then ((true, false), l)
      else (let l1 = open_window now l in
          answer user_id l1 (buckets.take_token now (limiter_of (lookup user_id l1.limiters))))

  abbrev one_if : Bool → ℕ
  one_if true = 1
  one_if false = 0

  -- The audits of a user in a sequence of calls.
  abbrev pub audits : Text → List (ℕ × Text) → UserRateLimiter L → ℕ
  audits user_id [] l = 0
  audits user_id ((now, u) ∷ calls) l =
      let (r, l1) = allow now u l in one_if (r.1 && text_eq u user_id) + audits user_id calls l1

  -- The user's refusal has been audited in the current window.
  record IsMarked (user_id : Text) (last : ℕ) (dur : ℕ) (l : UserRateLimiter L) : Type 0 where
    marked : lookup user_id l.reported ≡ some true
    opened : l.last_window ≡ last
    lasting : l.window_dur ≡ dur

  answer-IsMarked :
      (user_id u : Text) (last dur : ℕ) (l : UserRateLimiter L) (p : Bool × L)
      → IsMarked user_id last dur l
      → IsMarked user_id last dur (answer u l p).1
        × (((answer u l p).0.1 && text_eq u user_id) ≡ false)
  unfolding answer
  answer-IsMarked user_id u last dur l (true, b) m =
      (record { marked = m.marked; opened = m.opened; lasting = m.lasting }, refl)
  answer-IsMarked user_id u last dur l (false, b) m =
      elim (Bool-cases (is_reported (lookup u l.reported))) [
        | inl e ↦
            rw (e, answer)
              (record { marked = m.marked; opened = m.opened; lasting = m.lasting }, refl)
        | inr e ↦ elim (Bool-cases (text_eq u user_id)) [
          | inl s ↦
              let same = (text_eq_iff u user_id).0 s in
              let new : is_reported (lookup user_id l.reported) ≡ false =
                subst (λ x. is_reported (lookup x l.reported) ≡ false) same e in
              cc (rw m.marked at new)
          | inr s ↦
              rw (e, answer)
                (
                  record {
                    marked = ground (arith, lookup-insert u user_id true l.reported, s, m.marked);
                    opened = m.opened;
                    lasting = m.lasting;
                  },
                  s,
                )
        ]
      ]

  allow-IsMarked :
      (user_id u : Text) (now last dur : ℕ) (l : UserRateLimiter L)
      → ltb (now - last) dur ≡ true
      → IsMarked user_id last dur l
      → IsMarked user_id last dur (allow now u l).1
        × (((allow now u l).0.1 && text_eq u user_id) ≡ false)
  unfolding allow open_window
  allow-IsMarked user_id u now last dur l soon m = elim (Bool-cases (is_empty u)) [
    | inl e ↦ rw (e, allow) (m, refl)
    | inr e ↦
        let same : leb l.window_dur (now - l.last_window) ≡ false =
          ground (arith, m.opened, m.lasting, soon) in
        rw (e, same, allow, open_window)
          (answer-IsMarked user_id u last dur l
            (buckets.take_token now (limiter_of (lookup u l.limiters))) m)
  ]

  audits-IsMarked :
      (user_id : Text) (last dur : ℕ) (calls : List (ℕ × Text)) (l : UserRateLimiter L)
      → All (λ (c : ℕ × Text). ltb (c.0 - last) dur ≡ true) calls
      → IsMarked user_id last dur l
      → audits user_id calls l ≡ 0
  audits-IsMarked user_id last dur [] l h m = refl
  audits-IsMarked user_id last dur ((now, u) ∷ calls) l h m =
      let (next, silent) = allow-IsMarked user_id u now last dur l h.0 m in
      omega
        (arith, audits-IsMarked user_id last dur calls (allow now u l).1 h.1 next, ap one_if silent)

  answer-audited :
      (user_id : Text) (l l' : UserRateLimiter L) (p : Bool × L)
      → answer user_id l p ≡ ((false, true), l')
      → lookup user_id l'.reported ≡ some true
  unfolding answer
  answer-audited user_id l l' (true, b) h = ground (arith, h)
  answer-audited user_id l l' (false, b) h =
      elim (Bool-cases (is_reported (lookup user_id l.reported))) [
        | inl e ↦ ground (arith, h, e)
        | inr e ↦
            let r : insert user_id true l.reported ≡ l'.reported = ground (arith, h, e) in
            rw (sym r) (lookup-insert_self user_id true l.reported)
      ]

  allow-audited :
      (now : ℕ) (user_id : Text) (l l' : UserRateLimiter L)
      → allow now user_id l ≡ ((false, true), l')
      → lookup user_id l'.reported ≡ some true
  unfolding allow
  allow-audited now user_id l l' h = elim (Bool-cases (is_empty user_id)) [
    | inl e ↦ ground (arith, h, e)
    | inr e ↦
        let l1 = open_window now l in
        answer-audited user_id l1 l'
          (buckets.take_token now (limiter_of (lookup user_id l1.limiters))) (rw (e, allow) at h)
  ]

  -- After a refusal of a user has been audited, no call in the same window, by whomever and in
  -- whatever order, is audited for that user again.
  pub allow-one_audit :
      (now : ℕ) (user_id : Text) (l l' : UserRateLimiter L) (calls : List (ℕ × Text))
      → allow now user_id l ≡ ((false, true), l')
      → All (λ (c : ℕ × Text). ltb (c.0 - l'.last_window) l'.window_dur ≡ true) calls
      → audits user_id calls l' ≡ 0
  allow-one_audit now user_id l l' calls h soon =
      audits-IsMarked user_id l'.last_window l'.window_dur calls l' soon
        (record { marked = allow-audited now user_id l l' h; opened = refl; lasting = refl })
