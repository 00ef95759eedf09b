-- ===== src/Api/Audit/Paging.antt =====
-- api/audit.go and storage/audit.go: a client that asks for the list page by page, by the cursor of
-- each answer.
use rubez_ai.Prelude.{
  Option, keep_if_and, length-keep_if, take_all, ℕ, zero, suc, ◌-◌, ◌≤◌, ◌<◌, ◌≡◌, refl, sym, ap,
  ◌∙◌, subst, inl, inr, Bool, false, ◌&&◌, none, some, List, [], ◌∷◌, ◌++◌, map, arith, leb,
  Bool-cases, length, take, drop, take-append-drop, length-drop, keep_if, keep_if-All, Text,
  text_eq,
}
use mathlib.Core.Path.{fun_ext}
use mathlib.Core.List.{append_assoc, map-append}
use rubez_ai.Prelude.Result.{Result, ok, err}
use rubez_ai.Prelude.Sort.{sort_by, length-sort_by}
use rubez_ai.Prelude.Sorted.{IsSorted, sort_by-IsSorted, keep_if-sort_by, keep_if-after}
use rubez_ai.Auth.{Role}
use rubez_ai.Storage.Audit.{AuditEventRow, AuditFilter, audit_limit}
use rubez_ai.Storage.Audit.Query.{Sql, matches, newer, list_audit_events}
use rubez_ai.Storage.Audit.Meaning.{build_list_audit_query-matches}
use rubez_ai.Storage.Audit.Order.{newer-IsStrict, AreDistinct, AreDistinct-IsChain}
use rubez_ai.Api.Ids.{DbError}
use rubez_ai.Api.Audit.{
  Codec, AuditCursor, encode_audit_cursor, AuditEventSummaryDto, AuditEventListDto, row_to_summary,
}
use rubez_ai.Api.Audit.Cursors.{
  with_cursor, from_decoded, next_filter, IsCodec, decode-encode, last_row-split,
}
use rubez_ai.Api.Audit.Listing.{last_row, next_cursor_of, assemble_audit_list, read_audit_list}

abbrev after_page :
    List AuditEventSummaryDto
    → Option (List AuditEventSummaryDto)
    → Option (List AuditEventSummaryDto)
after_page page none = none
after_page page (some rest) = some (page ++ rest)

module _ (codec : Codec) (sql : Sql) (user_id_for_role : Role → Result DbError Text)
    (table : List AuditEventRow) where
  -- The pages that a client reads up to the one without a cursor; `none` where that takes more pages
  -- than it has patience for, or where a page or a cursor is not answered or not read.
  unfoldable pub walk : ℕ → AuditFilter → Option (List AuditEventSummaryDto)
  walk zero f = none
  walk (suc k) f = elim (read_audit_list codec sql user_id_for_role (some table) f) [
    | err e ↦ none
    | ok page ↦ elim page.next_cursor [
      | none ↦ some page.events
      | some c ↦ elim (next_filter codec f (some c)) [
        | none ↦ none
        | some f' ↦ after_page page.events (walk k f')
      ]
    ]
  ]

  -- The events that match, without the limit of a page.
  abbrev pub answers : AuditFilter → List AuditEventRow
  answers f = sort_by newer (keep_if (matches sql f) table)

  list_audit_events-answers :
      (f : AuditFilter) → list_audit_events sql f table ≡ take (audit_limit f.limit) (answers f)
  unfolding list_audit_events
  list_audit_events-answers f =
      ap (λ p. take (audit_limit f.limit) (sort_by newer (keep_if p table)))
        (fun_ext (λ r. (build_list_audit_query-matches sql r f).0))

  -- A cursor in the filter is one more condition.
  matches-with_cursor :
      (f : AuditFilter) (c r : AuditEventRow)
      → f.cursor_created_at ≡ none
      → matches sql (with_cursor f (record { created_at = c.created_at; id = c.id })) r
        ≡ (newer c r && matches sql f r)
  matches-with_cursor f c r h = elim (Bool-cases (newer c r)) [
    | inl e ↦ rw (e, h) refl
    | inr e ↦ rw (e) refl
  ]

  IsChain-keep_if :
      (p : AuditEventRow → Bool) (rs : List AuditEventRow)
      → AreDistinct rs
      → AreDistinct (keep_if p rs)
  unfolding keep_if
  IsChain-keep_if p [] d = tt
  IsChain-keep_if p (r ∷ rs) d = elim (Bool-cases (p r)) [
    | inl e ↦ rw e (keep_if-All (λ s. text_eq r.id s.id ≡ false) p rs d.0, IsChain-keep_if p rs d.1)
    | inr e ↦ rw e (IsChain-keep_if p rs d.1)
  ]

  -- Where the page starts after `c`, the answers are those after `c`.
  answers-with_cursor :
      (f : AuditFilter) (c : AuditEventRow) (as' bs : List AuditEventRow)
      → f.cursor_created_at ≡ none
      → AreDistinct table
      → answers f ≡ as' ++ (c ∷ bs)
      → answers (with_cursor f (record { created_at = c.created_at; id = c.id })) ≡ bs
  answers-with_cursor f c as' bs h d e =
      let chain =
        AreDistinct-IsChain (keep_if (matches sql f) table)
          (IsChain-keep_if (matches sql f) table d) in
      let sorted : IsSorted newer (as' ++ (c ∷ bs)) =
        subst (IsSorted newer) e
          (sort_by-IsSorted newer newer-IsStrict (keep_if (matches sql f) table) chain) in
      ap (λ p. sort_by newer (keep_if p table)) (fun_ext (λ r. matches-with_cursor f c r h))
      ∙ ap (sort_by newer) (keep_if_and (newer c) (matches sql f) table)
      ∙ keep_if-sort_by newer newer-IsStrict (newer c) (keep_if (matches sql f) table) chain
      ∙ ap (keep_if (newer c)) e
      ∙ keep_if-after newer newer-IsStrict as' c bs sorted

  abbrev page_of : ℕ → List AuditEventRow → AuditEventListDto
  page_of n rows = record {
    events = map (row_to_summary codec) (take n rows);
    next_cursor = next_cursor_of codec (take n rows) n;
  }

  read_audit_list-page :
      (g : AuditFilter) (rest : List AuditEventRow) (m : ℕ)
      → answers g ≡ rest
      → g.limit ≡ suc m
      → m < 200
      → read_audit_list codec sql user_id_for_role (some table) g ≡ ok (page_of (suc m) rest)
  unfolding read_audit_list assemble_audit_list
  read_audit_list-page g rest m a l small =
      let limit : audit_limit g.limit ≡ suc m = rw l (ground arith) in
      let shown : list_audit_events sql g table ≡ take (suc m) rest =
        list_audit_events-answers g
        ∙ ap (take (audit_limit g.limit)) a
        ∙ ap (λ n. take n rest) limit in
      ap (λ x. ok (assemble_audit_list codec x g.limit)) shown
      ∙ ap (λ n. ok (assemble_audit_list codec (take (suc m) rest) n)) l

  next_filter-next_cursor_of :
      (f g : AuditFilter) (law : IsCodec codec) (c : AuditEventRow)
      → ((c : AuditCursor) → with_cursor g c ≡ with_cursor f c)
      → next_filter codec g
          (some (encode_audit_cursor codec (record { created_at = c.created_at; id = c.id })))
        ≡ some (with_cursor f (record { created_at = c.created_at; id = c.id }))
  next_filter-next_cursor_of f g law c same =
      ap (from_decoded g)
        (decode-encode codec law (record { created_at = c.created_at; id = c.id }))
      ∙ ap some (same (record { created_at = c.created_at; id = c.id }))

  -- Where a full page is the next part of the answers, so is what follows its last event.
  page-split :
      (f : AuditFilter) (m : ℕ) (seen rest : List AuditEventRow) (r : AuditEventRow)
      → f.cursor_created_at ≡ none
      → AreDistinct table
      → answers f ≡ seen ++ (r ∷ rest)
      → (answers f ≡ (seen ++ (r ∷ take m rest)) ++ drop m rest)
        × (let c = last_row r (take m rest) in
            answers (with_cursor f (record { created_at = c.created_at; id = c.id })) ≡ drop m rest)
  page-split f m seen rest r h d e =
      let c = last_row r (take m rest) in
      let (as', split) = last_row-split r (take m rest) in
      let parts : r ∷ rest ≡ (r ∷ take m rest) ++ drop m rest =
        ap (λ x. r ∷ x) (sym (take-append-drop m rest)) in
      let whole : answers f ≡ (seen ++ as') ++ (c ∷ drop m rest) =
        e
        ∙ ap (λ x. seen ++ x)
            (parts ∙ ap (λ x. x ++ drop m rest) split ∙ append_assoc as' (c ∷ []) (drop m rest))
        ∙ sym (append_assoc seen as' (c ∷ drop m rest)) in
      (
        e ∙ ap (λ x. seen ++ x) parts ∙ sym (append_assoc seen (r ∷ take m rest) (drop m rest)),
        answers-with_cursor f c (seen ++ as') (drop m rest) h d whole,
      )

  -- The rest `rest` of the answers is what the pages from the filter `g` on show.
  walk-rest :
      (f : AuditFilter)
      → IsCodec codec
      → AreDistinct table
      → f.cursor_created_at ≡ none
      → (m : ℕ) → f.limit ≡ suc m
      → m < 200
      → (k : ℕ) (g : AuditFilter) (seen rest : List AuditEventRow) → g.limit ≡ f.limit
      → ((c : AuditCursor) → with_cursor g c ≡ with_cursor f c)
      → answers f ≡ seen ++ rest
      → answers g ≡ rest
      → length rest < k
      → walk k g ≡ some (map (row_to_summary codec) rest)
  unfolding walk
  walk-rest f law d h m n small zero g seen rest l same e a fuel = absurd (omega arith)
  walk-rest f law d h m n small (suc k) g seen [] l same e a fuel =
      rw (read_audit_list-page g [] m a (l ∙ n) small, walk) refl
  walk-rest f law d h m n small (suc k) g seen (r ∷ rest) l same e a fuel =
      elim (Bool-cases (leb (suc m) (length (r ∷ take m rest)))) [
        | inr b ↦
            let short : take m rest ≡ rest = take_all m rest (ground (arith, b)) in
            rw (read_audit_list-page g (r ∷ rest) m a (l ∙ n) small, walk, b, short) refl
        | inl b ↦
            let c = last_row r (take m rest) in
            let (whole, after) = page-split f m seen rest r h d e in
            let ih =
              walk-rest f law d h m n small k
                (with_cursor f (record { created_at = c.created_at; id = c.id }))
                (seen ++ (r ∷ take m rest)) (drop m rest) refl (λ x. refl) whole after
                (omega (arith, length-drop m rest)) in
            rw
              (
                read_audit_list-page g (r ∷ rest) m a (l ∙ n) small,
                walk,
                b,
                next_filter-next_cursor_of f g law c same,
                ih,
                ← map-append (row_to_summary codec) (take m rest) (drop m rest),
                take-append-drop m rest,
              )
              refl
      ]

  -- Following the cursors ends, and shows every event of the table that matches the filter exactly
  -- once, the latest first: where the ids are distinct and the cursors are read back, for every
  -- size of the page from 1 to 200, a client that is ready to read more pages than there are
  -- events comes to a page without a cursor, and has then read exactly the sorted list of the
  -- matching events.
  pub walk-answers :
      (f : AuditFilter) (k : ℕ)
      → IsCodec codec
      → AreDistinct table
      → f.cursor_created_at ≡ none
      → 1 ≤ f.limit
      → f.limit ≤ 200
      → length table < k
      → walk k f ≡ some (map (row_to_summary codec) (answers f))
  walk-answers f k law d h low high fuel =
      walk-rest f law d h (f.limit - 1) (omega arith) (omega arith) k f [] (answers f) refl
        (λ c. refl) refl refl
        (omega (
          arith,
          length-sort_by newer (keep_if (matches sql f) table),
          length-keep_if (matches sql f) table,
        ))
