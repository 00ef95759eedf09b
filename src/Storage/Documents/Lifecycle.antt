-- ===== src/Storage/Documents/Lifecycle.antt =====
-- storage/documents.go and rubezh-worker/app/queue.py: what the operations make of a deleted document.
use rubez_ai.Prelude.{
  ℕ, ◌≡◌, refl, subst, inl, inr, true, false, none, some, [], arith, Bool-cases, Option-cases, Text,
  text_eq, text_eq_iff,
}
use rubez_ai.Prelude.Result.{ok, err}
use rubez_ai.Prelude.Dict.{Dict, lookup, insert, lookup-insert, lookup-insert_self}
use rubez_ai.Storage.Documents.{
  Document, DocumentInput, DocumentDb, done, deleted, not_found, is_deleted, is_failed,
  new_document, create_document, get_document, soft_deleted, soft_delete_document, requeued,
  retry_document,
}

-- The row that the UPDATE of `mark_done` leaves.
abbrev pub finished : ℕ → Document → Document
finished now d = record d {
  status = done;
  processing_started_at = none;
  phase = none;
  error = none;
  updated_at = now;
}

-- `mark_done`, which has no condition on the status.
unfoldable pub mark_done : ℕ → Text → Dict Document → Dict Document
unfolding lookup insert
mark_done now id docs = elim (lookup id docs) [
  | none ↦ docs
  | some d ↦ insert id (finished now d) docs
]

-- The operations of the storage that change the documents.
pub data Change : Dict Document → Dict Document → Type 0 where
  create :
      (db : DocumentDb) (inp : DocumentInput) {docs docs' : Dict Document} {d : Document}
      → create_document db inp docs ≡ ok (d, docs')
      → Change docs docs'
  delete :
      (db : DocumentDb) (id : Text) {docs docs' : Dict Document}
      → soft_delete_document db id docs ≡ ok docs'
      → Change docs docs'
  retry :
      (db : DocumentDb) (id : Text) {docs docs' : Dict Document}
      → retry_document db id docs ≡ ok docs'
      → Change docs docs'

pub data Changes (docs : Dict Document) : Dict Document → Type 0 where
  unchanged : Changes docs docs
  next :
      {docs1 docs2 : Dict Document} → Changes docs docs1 → Change docs1 docs2 → Changes docs docs2

-- The row of `id` is erased: deleted, with no key of a stored file.
pub record IsErased (id : Text) (docs : Dict Document) : Type 0 where
  pub row : Document
  pub stored : lookup id docs ≡ some row
  pub gone : row.status ≡ deleted
  pub no_key : row.storage_key ≡ []

-- A row that is written beside an erased one, or over one that is not deleted, leaves it erased.
insert-IsErased :
    (id k : Text) (d : Document) (docs : Dict Document)
    → IsErased id docs
    → text_eq k id ≡ false
    → IsErased id (insert k d docs)
insert-IsErased id k d docs v n = record {
  row = v.row;
  stored = rw (lookup-insert, n) v.stored;
  gone = v.gone;
  no_key = v.no_key;
}

-- Two ids whose rows differ in being deleted are different.
ids_differ :
    (id k : Text) (docs : Dict Document)
    → IsErased id docs
    → (d : Document) → lookup k docs ≡ some d
    → is_deleted d.status ≡ false
    → text_eq k id ≡ false
ids_differ id k docs v d q n = elim (Bool-cases (text_eq k id)) [
  | inr e ↦ e
  | inl e ↦
      let both : lookup id docs ≡ some d =
        subst (λ x. lookup x docs ≡ some d) ((text_eq_iff k id).0 e) q in
      ground (arith, both, v.stored, v.gone, n)
]

pub create_document-ok :
    (db : DocumentDb) (inp : DocumentInput) (docs docs' : Dict Document) (d : Document)
    → create_document db inp docs ≡ ok (d, docs')
    → (lookup d.id docs ≡ none) × (docs' ≡ insert d.id d docs) × (d ≡ new_document db inp)
unfolding create_document
create_document-ok db inp docs docs' d h =
    elim (Option-cases (lookup (new_document db inp).id docs)) [
      | inl n ↦ (ground (arith, h, n), ground (arith, h, n), ground (arith, h, n))
      | inr (e, q) ↦ (ground (arith, h, q), ground (arith, h, q), ground (arith, h, q))
    ]

soft_delete_document-ok :
    (db : DocumentDb) (id : Text) (docs docs' : Dict Document)
    → soft_delete_document db id docs ≡ ok docs'
    → (d : Document) × (lookup id docs ≡ some d)
      × (is_deleted d.status ≡ false)
      × (docs' ≡ insert id (soft_deleted db d) docs)
unfolding soft_delete_document
soft_delete_document-ok db id docs docs' h = elim (Option-cases (lookup id docs)) [
  | inl n ↦ ground (arith, h, n)
  | inr (d, q) ↦ (d, q, ground (arith, h, q), ground (arith, h, q))
]

retry_document-ok :
    (db : DocumentDb) (id : Text) (docs docs' : Dict Document)
    → retry_document db id docs ≡ ok docs'
    → (d : Document) × (lookup id docs ≡ some d)
      × (is_failed d.status ≡ true)
      × (docs' ≡ insert id (requeued db d) docs)
unfolding retry_document
retry_document-ok db id docs docs' h = elim (Option-cases (lookup id docs)) [
  | inl n ↦ ground (arith, h, n)
  | inr (d, q) ↦ (d, q, ground (arith, h, q), ground (arith, h, q))
]

-- A row of another id, new or not deleted, does not touch an erased one.
absent_differs :
    (id k : Text) (docs : Dict Document)
    → IsErased id docs
    → lookup k docs ≡ none
    → text_eq k id ≡ false
absent_differs id k docs v q = elim (Bool-cases (text_eq k id)) [
  | inr e ↦ e
  | inl e ↦
      let both : lookup id docs ≡ none =
        subst (λ x. lookup x docs ≡ none) ((text_eq_iff k id).0 e) q in
      ground (arith, both, v.stored)
]

Change-IsErased :
    {docs docs' : Dict Document} (id : Text)
    → Change docs docs'
    → IsErased id docs
    → IsErased id docs'
Change-IsErased id (create db inp {docs} {docs'} {d} h) v =
    let (fresh, same, made) = create_document-ok db inp docs docs' d h in
    rw same (insert-IsErased id d.id d docs v (absent_differs id d.id docs v fresh))
Change-IsErased id (delete db k {docs} {docs'} h) v =
    let (d, q, n, same) = soft_delete_document-ok db k docs docs' h in
    rw same (insert-IsErased id k (soft_deleted db d) docs v (ids_differ id k docs v d q n))
Change-IsErased id (retry db k {docs} {docs'} h) v =
    let (d, q, f, same) = retry_document-ok db k docs docs' h in
    rw same
      (insert-IsErased id k (requeued db d) docs v (ids_differ id k docs v d q (ground (arith, f))))

Changes-IsErased :
    {docs docs' : Dict Document} (id : Text)
    → Changes docs docs'
    → IsErased id docs
    → IsErased id docs'
Changes-IsErased id unchanged v = v
Changes-IsErased id (next r c) v = Change-IsErased id c (Changes-IsErased id r v)

get_document-IsErased :
    (db : DocumentDb) (id : Text) (docs : Dict Document)
    → db.reads ≡ true
    → IsErased id docs
    → get_document db id docs ≡ err not_found
unfolding get_document
get_document-IsErased db id docs reads v = ground (arith, reads, v.stored, v.gone)

-- After a document is deleted, and whatever documents are then created, deleted and put back into the
-- queue, its row has no key of a stored file, and reading it reports that there is none.
pub soft_delete_document-final :
    (db later : DocumentDb) (id : Text) (docs docs' docs2 : Dict Document)
    → soft_delete_document db id docs ≡ ok docs'
    → Changes docs' docs2
    → later.reads ≡ true
    → IsErased id docs2 × (get_document later id docs2 ≡ err not_found)
soft_delete_document-final db later id docs docs' docs2 h r reads =
    let (d, q, n, same) = soft_delete_document-ok db id docs docs' h in
    let start : IsErased id docs' = record {
      row = soft_deleted db d;
      stored = rw same (lookup-insert_self id (soft_deleted db d) docs);
      gone = refl;
      no_key = refl;
    } in
    let last = Changes-IsErased id r start in
    (last, get_document-IsErased later id docs2 reads last)

-- The worker brings a deleted document back: where a document is deleted while the worker processes
-- it, the end of the processing makes it readable again.
pub mark_done-soft_delete_document :
    (db later : DocumentDb) (now : ℕ) (id : Text) (docs docs' : Dict Document)
    → soft_delete_document db id docs ≡ ok docs'
    → later.reads ≡ true
    → (d : Document) × (get_document later id (mark_done now id docs') ≡ ok d) × (d.status ≡ done)
unfolding mark_done get_document
mark_done-soft_delete_document db later now id docs docs' h reads =
    let (d, q, n, same) = soft_delete_document-ok db id docs docs' h in
    (
      finished now (soft_deleted db d),
      rw
          (
            same,
            lookup-insert_self id (soft_deleted db d) docs,
            mark_done,
            lookup-insert_self,
            reads,
            get_document,
          )
          refl,
      refl,
    )
