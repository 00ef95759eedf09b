-- ===== src/Storage/Search/Found.antt =====
-- storage/search.go: what a search can find.
use rubez_ai.Prelude.{
  All-both, length-take_bound, length-map, and_parts, ◌≤◌, ◌≡◌, refl, sym, ap, ◌∙◌, subst, inl, inr,
  true, false, ◌&&◌, ◌||◌, Option, none, some, List, [], ◌∷◌, map, arith, Bool-cases, Option-cases,
  length, take, All, Any, here, there, All-append, All-imp, All-map, Any-imp, keep_if, All-keep_if,
  keep_if-All, take-All, Text, text_eq, is_empty,
}
use rubez_ai.Prelude.Int.{ℤ, pos, negsuc}
use rubez_ai.Prelude.Result.{Result, ok, err}
use rubez_ai.Prelude.Dict.{Dict, lookup, All_lookup}
use rubez_ai.Prelude.Sort.{sort_by, All-sort_by}
use rubez_ai.Storage.Documents.{
  Document, DocumentStatus, done, pending, processing, deleted, Chunk, DocumentTables, DocumentDb,
  DocumentError, is_deleted,
}
use rubez_ai.Storage.Documents.Acl.{
  AclCodec, is_supervisor, acl_condition, check_document_access, visible, casts_user, all_cast,
}
use rubez_ai.Storage.Documents.Access.{IsAclCodec, IsSpelled, IsReadable, accepted, visible-open_to}
use rubez_ai.Storage.Search.{
  snippet_max_runes, Vectors, EmbeddingRow, SearchResult, Joined, is_done, find_chunk, search_limit,
  in_filter, join_chunk, join_tables, search_condition, result_of, search_chunks, nearer,
}

is_done-eq : (s : DocumentStatus) → is_done s ≡ true → s ≡ done
is_done-eq done h = refl
is_done-eq pending h = cc
is_done-eq processing h = cc
is_done-eq deleted h = cc
is_done-eq DocumentStatus.failed h = cc

accepted-ok : (r : Result DocumentError (Unit {0})) → accepted r ≡ true → r ≡ ok tt
accepted-ok (ok u) h = refl
accepted-ok (err e) h = cc

find_chunk-Any :
    (id : Text) (cs : List Chunk) (c : Chunk) → find_chunk id cs ≡ some c → Any (λ x. x ≡ c) cs
unfolding find_chunk
find_chunk-Any id [] c h = cc
find_chunk-Any id (x ∷ cs) c h = elim (Bool-cases (text_eq x.id id)) [
  | inl e ↦ here (ground (arith, h, e))
  | inr e ↦ there (find_chunk-Any id cs c (ground (arith, h, e)))
]

module _ {V : Type 0} (vectors : Vectors V) (chunks : List Chunk) (docs : Dict Document) where
  -- A row of the join is made of rows of the tables.
  abbrev IsRow : Joined V → Type 0
  IsRow j = (lookup j.chunk.document_id docs ≡ some j.document) × Any (λ x. x ≡ j.chunk) chunks

  join_chunk-IsRow :
      (e : EmbeddingRow V) (r : Option Chunk)
      → find_chunk e.chunk_id chunks ≡ r
      → All IsRow (join_chunk vectors e docs r)
  join_chunk-IsRow e none h = tt
  join_chunk-IsRow e (some c) h = elim (Option-cases (lookup c.document_id docs)) [
    | inl n ↦ rw n tt
    | inr (d, q) ↦ rw q ((q, find_chunk-Any e.chunk_id chunks c h), tt)
  ]

  join_tables-IsRow : (es : List (EmbeddingRow V)) → All IsRow (join_tables vectors es chunks docs)
  unfolding join_tables
  join_tables-IsRow [] = tt
  join_tables-IsRow (e ∷ es) =
      All-append IsRow (join_chunk vectors e docs (find_chunk e.chunk_id chunks))
        (join_tables vectors es chunks docs)
        (join_chunk-IsRow e (find_chunk e.chunk_id chunks) refl) (join_tables-IsRow es)

pub search_limit_bound : (n : ℤ) → search_limit n ≤ 20
search_limit_bound (negsuc n) = omega arith
search_limit_bound (pos n) = ground arith

module _ {V : Type 0} (vectors : Vectors V) (db : DocumentDb) (codec : AclCodec)
    (user_id role : Text) (document_ids : List Text) (t : DocumentTables) where
  -- The result is a piece of a chunk of a processed document that the user may see and that was asked
  -- for, if any were.
  pub record IsFound (r : SearchResult) : Type 0 where
    pub doc : Document
    pub stored : lookup r.document_id t.documents ≡ some doc
    pub processed : doc.status ≡ done
    pub access : check_document_access codec doc user_id role ≡ ok tt
    pub asked : in_filter codec document_ids r.document_id ≡ true
    pub piece :
        Any
          (λ (c : Chunk).
            (c.document_id ≡ r.document_id) × (take snippet_max_runes c.content ≡ r.snippet))
          t.chunks

  search_condition-parts :
      (embedder_name : Text) (j : Joined V)
      → search_condition vectors db codec user_id role embedder_name document_ids j ≡ true
      → (is_done j.document.status ≡ true)
        × ((is_supervisor role || acl_condition codec user_id role j.document) ≡ true)
        × (in_filter codec document_ids j.chunk.document_id ≡ true)
  unfolding search_condition
  search_condition-parts embedder_name j h =
      let (fin, rest) = and_parts _ _ h in
      let (model, rest') = and_parts _ _ rest in
      let (may, asked) = and_parts _ _ rest' in (fin, may, asked)

  access_of :
      IsAclCodec codec
      → IsSpelled codec user_id
      → casts_user codec user_id role ≡ true
      → (d : Document) → IsReadable codec d
      → is_done d.status ≡ true
      → (is_supervisor role || acl_condition codec user_id role d) ≡ true
      → check_document_access codec d user_id role ≡ ok tt
  unfolding visible
  access_of law spelled user d parses fin may =
      let live : is_deleted d.status ≡ false = rw (is_done-eq d.status fin) refl in
      let seen : visible codec user_id role d ≡ true = rw (live, may, visible) refl in
      let both = sym (visible-open_to codec law user_id role spelled user d parses) ∙ seen in
      accepted-ok (check_document_access codec d user_id role) (and_parts _ _ both).1

  row-IsFound :
      IsAclCodec codec
      → IsSpelled codec user_id
      → casts_user codec user_id role ≡ true
      → All (λ (e : Text × Document). IsReadable codec e.1) t.documents
      → (query : V) (embedder_name : Text) (j : Joined V)
      → IsRow vectors t.chunks t.documents j
        × (search_condition vectors db codec user_id role embedder_name document_ids j ≡ true)
      → IsFound (result_of vectors db codec query t.results j)
  unfolding result_of
  row-IsFound law spelled user parses query embedder_name j ((stored, part), c) =
      let (fin, may, asked) = search_condition-parts embedder_name j c in
      record {
        doc = j.document;
        stored = stored;
        processed = is_done-eq j.document.status fin;
        access =
            access_of law spelled user j.document
              (All_lookup (λ (e : Text × Document). IsReadable codec e.1) j.chunk.document_id
                j.document t.documents parses stored)
              fin may;
        asked = asked;
        piece =
            Any-imp (λ x. x ≡ j.chunk) _
              (λ x e. (ap (λ y. y.document_id) e, ap (λ y. take snippet_max_runes y.content) e))
              t.chunks part;
      }

  -- The rows of the answer, the nearest first.
  abbrev top_rows : V → Text → ℤ → List (EmbeddingRow V) → List (Joined V)
  top_rows query embedder_name limit embeddings = take (search_limit limit) (
      sort_by (nearer vectors db codec query) (
        keep_if (search_condition vectors db codec user_id role embedder_name document_ids)
          (join_tables vectors embeddings t.chunks t.documents)))

  search_chunks-ok :
      (query : V) (embedder_name : Text) (limit : ℤ) (embeddings : List (EmbeddingRow V))
      (out : List SearchResult)
      → search_chunks vectors db codec query user_id role embedder_name document_ids limit
          embeddings t
        ≡ ok out
      → (casts_user codec user_id role ≡ true)
        × (map
              (result_of vectors db codec query t.results)
              (top_rows query embedder_name limit embeddings)
            ≡ out)
  unfolding search_chunks
  search_chunks-ok query embedder_name limit embeddings out h =
      elim (Bool-cases (is_empty embedder_name)) [
        | inl e ↦ let k = rw (e, search_chunks) at h in ground (arith, k)
        | inr e ↦
            elim (Bool-cases
              (db.reads && (casts_user codec user_id role && all_cast codec document_ids))) [
                | inr n ↦ let k = rw (e, n, search_chunks) at h in ground (arith, k)
                | inl y ↦
                    let k = rw (e, y, search_chunks) at h in
                    ((and_parts _ _ (and_parts _ _ y).1).0, ground (arith, k))
              ]
      ]

  -- A row that the query selects: of the tables, and with its conditions.
  abbrev IsSelected : Text → Joined V → Type 0
  IsSelected embedder_name j =
      IsRow vectors t.chunks t.documents j
      × (search_condition vectors db codec user_id role embedder_name document_ids j ≡ true)

  top_rows-IsSelected :
      (query : V) (embedder_name : Text) (limit : ℤ) (embeddings : List (EmbeddingRow V))
      → All (IsSelected embedder_name) (top_rows query embedder_name limit embeddings)
  top_rows-IsSelected query embedder_name limit embeddings =
      let rows = join_tables vectors embeddings t.chunks t.documents in
      let test = search_condition vectors db codec user_id role embedder_name document_ids in
      let before = nearer vectors db codec query in
      take-All (IsSelected embedder_name) (search_limit limit) (sort_by before (keep_if test rows))
        (All-sort_by before (IsSelected embedder_name) (keep_if test rows) (
          All-both (IsRow vectors t.chunks t.documents) _ (keep_if test rows)
            (keep_if-All (IsRow vectors t.chunks t.documents) _ rows
              (join_tables-IsRow vectors t.chunks t.documents embeddings))
            (All-keep_if _ rows)))

  -- Where the rights of the stored documents are lists of objects and the user's id is spelled as
  -- the database spells it: every result of a search is a piece of a chunk of a stored document
  -- that is processed, that the check in Go lets the user see, and that is among the requested
  -- ones if any were; and there are no more than the limit allows.
  pub search_chunks-IsFound :
      IsAclCodec codec
      → IsSpelled codec user_id
      → All (λ (e : Text × Document). IsReadable codec e.1) t.documents
      → (query : V) (embedder_name : Text) (limit : ℤ) (embeddings : List (EmbeddingRow V))
        (out : List SearchResult)
      → search_chunks vectors db codec query user_id role embedder_name document_ids limit
          embeddings t
        ≡ ok out
      → All IsFound out × (length out ≤ search_limit limit)
  search_chunks-IsFound law spelled parses query embedder_name limit embeddings out h =
      let (user, same) = search_chunks-ok query embedder_name limit embeddings out h in
      let top = top_rows query embedder_name limit embeddings in
      let result = result_of vectors db codec query t.results in
      subst (λ x. All IsFound x × (length x ≤ search_limit limit)) same
        (
          All-map IsFound result top (
              All-imp (IsSelected embedder_name) _
                (row-IsFound law spelled user parses query embedder_name) top
                (top_rows-IsSelected query embedder_name limit embeddings)),
          omega (
            arith,
            length-map result top,
            length-take_bound (search_limit limit) (
                sort_by (nearer vectors db codec query) (
                  keep_if
                    (search_condition vectors db codec user_id role embedder_name document_ids)
                    (join_tables vectors embeddings t.chunks t.documents))),
          ),
        )
