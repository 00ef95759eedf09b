-- ===== src/Llm/Markers.antt =====
-- llm/ssh_cli.go: which lines of a prompt read as the head of a role's block.
use rubez_ai.Prelude.{
  ℕ, zero, suc, ◌≡◌, refl, sym, ap, ◌∙◌, inl, inr, Bool, true, false, ◌&&◌, List, [], ◌∷◌, ◌++◌,
  map, arith, ◌==◌, ==_iff, Bool-cases, All, All-imp, All-map, keep_if, Text, txt, is_empty,
  is_prefix, contains,
}
use mathlib.Core.List.{append-nil}
use rubez_ai.Chat.Types.{Role, ChatMessage}
use rubez_ai.Prelude.Cut.{IsFree}
use rubez_ai.Chat.Records.{join}
use rubez_ai.Chat.Review.Attachments.{trim_newlines}
use rubez_ai.Llm.Ssh.{
  split_parts, split_on, is_marked, escape_line, escape_ssh_role_markers, ssh_role_text,
  role_header, prompt_blocks, has_user, assemble_ssh_prompt,
}

split_parts-append :
    (sep : ℕ) (a b : Text)
    → split_parts sep (a ++ (sep ∷ b))
      ≡ ((split_parts sep a).0, (split_parts sep a).1 ++ split_on sep b)
unfolding split_parts
split_parts-append sep [] b = ground arith
split_parts-append sep (c ∷ a) b = elim (Bool-cases (c == sep)) [
  | inl e ↦ rw (e, split_parts-append sep a b) refl
  | inr e ↦ rw (e, split_parts-append sep a b) refl
]

keep_if-append :
    (p : Text → Bool) (xs ys : List Text) → keep_if p (xs ++ ys) ≡ keep_if p xs ++ keep_if p ys
unfolding keep_if
keep_if-append p [] ys = refl
keep_if-append p (x ∷ xs) ys = elim (Bool-cases (p x)) [
  | inl e ↦ rw (e, keep_if-append p xs ys) refl
  | inr e ↦ rw (e, keep_if-append p xs ys) refl
]

-- The lines of a text that read as the head of a role's block.
abbrev pub marked_lines : Text → List Text
marked_lines s = keep_if is_marked (split_on 0x0a s)

marked_lines-append :
    (a b : Text) → marked_lines (a ++ (0x0a ∷ b)) ≡ marked_lines a ++ marked_lines b
marked_lines-append a b =
    rw (split_parts-append 0x0a a b) (keep_if-append is_marked (split_on 0x0a a) (split_on 0x0a b))

-- The text has no line that reads as a head.
abbrev IsPlain : Text → Type 0
IsPlain s = marked_lines s ≡ []

keep_if-none : (p : Text → Bool) (xs : List Text) → All (λ x. p x ≡ false) xs → keep_if p xs ≡ []
unfolding keep_if
keep_if-none p [] h = refl
keep_if-none p (x ∷ xs) h = rw (h.0, keep_if-none p xs h.1) refl

split_parts-All :
    (q : ℕ → Bool) (sep : ℕ) (s : Text)
    → All (λ c. q c ≡ false) s
    → All (λ (l : Text). All (λ c. q c ≡ false) l) (split_on sep s)
unfolding split_parts
split_parts-All q sep [] h = (tt, tt)
split_parts-All q sep (c ∷ s) h = elim (Bool-cases (c == sep)) [
  | inl e ↦ rw e (tt, split_parts-All q sep s h.1)
  | inr e ↦ let ih = split_parts-All q sep s h.1 in rw e ((h.0, ih.0), ih.1)
]

split_parts-IsFree : (sep : ℕ) (s : Text) → All (IsFree sep) (split_on sep s)
unfolding split_parts
split_parts-IsFree sep [] = (tt, tt)
split_parts-IsFree sep (c ∷ s) = elim (Bool-cases (c == sep)) [
  | inl e ↦ rw e (tt, split_parts-IsFree sep s)
  | inr e ↦ let ih = split_parts-IsFree sep s in rw e ((e, ih.0), ih.1)
]

split_parts-free : (sep : ℕ) (l : Text) → IsFree sep l → split_parts sep l ≡ (l, [])
unfolding split_parts
split_parts-free sep [] h = refl
split_parts-free sep (c ∷ l) h = rw (h.0, split_parts-free sep l h.1) refl

split_on-join :
    (sep : ℕ) (l : Text) (ls : List Text)
    → All (IsFree sep) (l ∷ ls)
    → split_parts sep (join (sep ∷ []) (l ∷ ls)) ≡ (l, ls)
unfolding join
split_on-join sep l [] h = split_parts-free sep l h.0
split_on-join sep l (k ∷ ls) h =
    rw
      (
        split_parts-append sep l (join (sep ∷ []) (k ∷ ls)),
        split_parts-free sep l h.0,
        split_on-join sep k ls h.1,
      )
      refl

contains-bracket : (s : Text) → contains (txt "[") s ≡ false → All (λ c. (c == b'[') ≡ false) s
unfolding contains is_prefix txt
contains-bracket [] h = tt
contains-bracket (c ∷ s) h = (ground (arith, h), contains-bracket s (ground (arith, h)))

is_marked-bracket : (l : Text) → All (λ c. (c == b'[') ≡ false) l → is_marked l ≡ false
unfolding is_marked is_prefix txt
is_marked-bracket [] h = refl
is_marked-bracket (c ∷ l) h = ground (arith, h.0)

backslash-is_marked : (l : Text) → is_marked (0x5c ∷ l) ≡ false
unfolding is_marked is_prefix txt
backslash-is_marked l = refl

escape_line-is_marked : (l : Text) → is_marked (escape_line l) ≡ false
unfolding escape_line
escape_line-is_marked l = elim (Bool-cases (is_marked l)) [
  | inl e ↦ rw (e, escape_line) (backslash-is_marked l)
  | inr e ↦ rw (e, escape_line) e
]

escape_line-IsFree : (l : Text) → IsFree 0x0a l → IsFree 0x0a (escape_line l)
unfolding escape_line
escape_line-IsFree l h = elim (Bool-cases (is_marked l)) [ inl e ↦ rw e (refl, h) | inr e ↦ rw e h ]

escaped_lines : (ls : List Text) → All (λ l. is_marked l ≡ false) (map escape_line ls)
escaped_lines [] = tt
escaped_lines (l ∷ ls) = (escape_line-is_marked l, escaped_lines ls)

escape_ssh_role_markers-IsPlain : (s : Text) → IsPlain (escape_ssh_role_markers s)
unfolding escape_ssh_role_markers
escape_ssh_role_markers-IsPlain s = elim (Bool-cases (contains (txt "[") s)) [
  | inr e ↦
      rw (e, escape_ssh_role_markers)
        (keep_if-none is_marked (split_on 0x0a s) (
          All-imp (λ (l : Text). All (λ c. (c == b'[') ≡ false) l) (λ l. is_marked l ≡ false)
            is_marked-bracket (split_on 0x0a s)
            (split_parts-All (λ c. c == b'[') 0x0a s (contains-bracket s e))))
  | inl e ↦
      let lines = map escape_line (split_on 0x0a s) in
      let free = All-map (IsFree 0x0a) escape_line (split_on 0x0a s) (
        All-imp (IsFree 0x0a) (λ l. IsFree 0x0a (escape_line l)) escape_line-IsFree
          (split_on 0x0a s) (split_parts-IsFree 0x0a s)) in
      rw
        (
          e,
          escape_ssh_role_markers,
          split_on-join 0x0a (escape_line (split_parts 0x0a s).0)
              (map escape_line (split_parts 0x0a s).1) free,
        )
        (keep_if-none is_marked lines (escaped_lines (split_on 0x0a s)))
]

is_empty_iff : (s : Text) → is_empty s ≡ true → s ≡ []
is_empty_iff [] h = refl
is_empty_iff (c ∷ s) h = cc

abbrev newlines : ℕ → Text
newlines zero = []
newlines (suc n) = 0x0a ∷ newlines n

trim_newlines-append : (s : Text) → (n : ℕ) × (s ≡ trim_newlines s ++ newlines n)
unfolding trim_newlines
trim_newlines-append [] = (0, refl)
trim_newlines-append (c ∷ s) =
    let (n, e) = trim_newlines-append s in
    elim (Bool-cases (c == 0x0a && is_empty (trim_newlines s))) [
      | inr f ↦ (n, rw f (ap (λ (t : Text). c ∷ t) e))
      | inl f ↦
          let line : c ≡ 0x0a = ground (arith, f, ==_iff c 0x0a) in
          let bare : trim_newlines s ≡ [] = is_empty_iff (trim_newlines s) (ground (arith, f)) in
          let rest : s ≡ newlines n = rw bare at e in
          (suc n, rw f (rw line (ap (λ (t : Text). 0x0a ∷ t) rest)))
    ]

newlines-IsPlain : (n : ℕ) → IsPlain (newlines n)
unfolding split_parts keep_if is_marked is_prefix txt
newlines-IsPlain zero = refl
newlines-IsPlain (suc n) = newlines-IsPlain n

trimmed-marked : (t : Text) (n : ℕ) → marked_lines (t ++ newlines n) ≡ marked_lines t
trimmed-marked t zero = rw (append-nil t) refl
trimmed-marked t (suc n) =
    rw (marked_lines-append t (newlines n), newlines-IsPlain n) (append-nil (marked_lines t))

-- One of the three roles of the package, or none, which is written as the user's.
abbrev pub IsRole : Role → Type 0
IsRole Role.system = Unit
IsRole Role.user = Unit
IsRole Role.assistant = Unit
IsRole (Role.other r) = r ≡ []

header_lem : (r : Role) → IsRole r → marked_lines (role_header r) ≡ role_header r ∷ []
unfolding role_header ssh_role_text split_parts keep_if is_marked is_prefix txt
header_lem Role.system h = refl
header_lem Role.user h = refl
header_lem Role.assistant h = refl
header_lem (Role.other r) h = rw h refl

abbrev pub headers : List ChatMessage → List Text
headers [] = []
headers (m ∷ ms) = role_header m.role ∷ headers ms

prompt_blocks-headers :
    (ms : List ChatMessage)
    → All (λ m. IsRole m.role) ms
    → marked_lines (prompt_blocks ms) ≡ headers ms
unfolding prompt_blocks
prompt_blocks-headers [] h = newlines-IsPlain 0
prompt_blocks-headers (m ∷ ms) h =
    let body = escape_ssh_role_markers m.content in
    let rest = prompt_blocks ms in
    rw
      (
        marked_lines-append (role_header m.role) (body ++ (0x0a ∷ 0x0a ∷ rest)),
        header_lem m.role h.0,
        marked_lines-append body (0x0a ∷ rest),
        escape_ssh_role_markers-IsPlain m.content,
        marked_lines-append [] rest,
        newlines-IsPlain 0,
        prompt_blocks-headers ms h.1,
      )
      refl

-- When some message is a user's and each role is `system`, `user`, `assistant` or empty, the lines
-- of the assembled prompt that read as the head of a role's block are exactly the heads of the
-- messages, one for each and in their order: no content of a message adds one.
pub assemble_ssh_prompt-headers :
    (messages : List ChatMessage)
    → has_user messages ≡ true
    → All (λ m. IsRole m.role) messages
    → marked_lines (assemble_ssh_prompt messages) ≡ headers messages
unfolding assemble_ssh_prompt
assemble_ssh_prompt-headers messages h roles =
    let blocks = prompt_blocks messages in
    let (n, e) = trim_newlines-append blocks in
    rw (h, assemble_ssh_prompt)
      (sym (trimmed-marked (trim_newlines blocks) n)
        ∙ (ap marked_lines (sym e) ∙ prompt_blocks-headers messages roles))
