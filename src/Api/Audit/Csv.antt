-- ===== src/Api/Audit/Csv.antt =====
-- api/audit.go: the CSV of the export against a reader of CSV files.
use rubez_ai.Prelude.{
  All, ◌||◌, ℕ, ◌≡◌, refl, sym, ap, ◌∙◌, inl, inr, Bool, true, false, List, [], ◌∷◌, ◌++◌, map,
  arith, ◌==◌, if◌then◌else◌, ==_iff, Bool-cases, Text, txt,
}
use mathlib.Core.List.{append-nil, append_assoc}
use rubez_ai.Prelude.Cut.{IsFree}
use rubez_ai.Chat.Records.{join}
use rubez_ai.Storage.Audit.{AuditEventRow}
use rubez_ai.Api.Audit.{Codec}
use rubez_ai.Api.Audit.Export.{
  is_special, contains_special, double_quotes, escape_field, escape_csv, csv_columns, csv_fields,
  csv_line, csv_lines, write_csv_export,
}

-- Where the reader stands: before a record, before a field, in a field, between quotation marks,
-- and after a quotation mark between which it stood.
pub data Mode : Type 0 where
  line start plain quoted after : Mode

-- A character of the current field, the end of a field, and the end of a record, before what is
-- read after it.
abbrev push : ℕ → List (List Text) → List (List Text)
push c [] = ((c ∷ []) ∷ []) ∷ []
push c ([] ∷ rs) = ((c ∷ []) ∷ []) ∷ rs
push c ((f ∷ fs) ∷ rs) = ((c ∷ f) ∷ fs) ∷ rs

abbrev next_field : List (List Text) → List (List Text)
next_field [] = ([] ∷ []) ∷ []
next_field (fs ∷ rs) = ([] ∷ fs) ∷ rs

abbrev last_field : List (List Text) → List (List Text)
last_field rs = ([] ∷ []) ∷ rs

-- A line feed, or a carriage return: outside quotation marks each ends the record.
abbrev ends_line : ℕ → Bool
ends_line c = c == 0x0a || c == 0x0d

-- A reader of CSV files with the fields and the quotation marks of RFC 4180, where a line feed or a
-- carriage return alone ends a record.
unfoldable pub read_csv : Mode → Text → List (List Text)
read_csv line [] = []
read_csv start [] = last_field []
read_csv plain [] = last_field []
read_csv quoted [] = last_field []
read_csv after [] = last_field []
read_csv quoted (c ∷ s) =
    let closed = read_csv after s in
    let more = read_csv quoted s in if c == 0x22 then closed else push c more
read_csv after (c ∷ s) =
    let again = read_csv quoted s in
    let field = read_csv start s in
    let row = read_csv line s in
    let more = read_csv plain s in
    if c == 0x22
    then push c again
    else if c == b','
    then next_field field
    else if ends_line c
    then last_field row
    else push c more
read_csv plain (c ∷ s) =
    let field = read_csv start s in
    let row = read_csv line s in
    let more = read_csv plain s in
    if c == b',' then next_field field else if ends_line c then last_field row else push c more
read_csv start (c ∷ s) =
    let opened = read_csv quoted s in
    let field = read_csv start s in
    let row = read_csv line s in
    let more = read_csv plain s in
    if c == 0x22
    then opened
    else if c == b','
    then next_field field
    else if ends_line c
    then last_field row
    else push c more
read_csv line (c ∷ s) =
    let opened = read_csv quoted s in
    let field = read_csv start s in
    let row = read_csv line s in
    let more = read_csv plain s in
    if c == 0x22
    then opened
    else if c == b','
    then next_field field
    else if ends_line c
    then last_field row
    else push c more

abbrev push_all : Text → List (List Text) → List (List Text)
push_all [] rs = rs
push_all (c ∷ s) rs = push c (push_all s rs)

-- what follows a field: a comma or the end of the line
data IsEnd : Text → Type 0 where
  comma : (s : Text) → IsEnd (b',' ∷ s)
  newline : (s : Text) → IsEnd (0x0a ∷ s)

quoted_lem :
    (f rest : Text)
    → read_csv quoted (double_quotes f ++ (0x22 ∷ rest)) ≡ push_all f (read_csv after rest)
unfolding read_csv double_quotes
quoted_lem [] rest = refl
quoted_lem (c ∷ f) rest = elim (Bool-cases (c == 0x22)) [
  | inl e ↦ let q = (==_iff c 0x22).0 e in rw q (rw (quoted_lem f rest) refl)
  | inr e ↦ ground (arith, quoted_lem f rest)
]

after_lem : (e : Text) → IsEnd e → read_csv after e ≡ read_csv plain e
unfolding read_csv
after_lem e (comma s) = refl
after_lem e (newline s) = refl

start_lem : (e : Text) → IsEnd e → read_csv start e ≡ read_csv plain e
unfolding read_csv
start_lem e (comma s) = refl
start_lem e (newline s) = refl

-- A field with a carriage return has a comma, a quotation mark or a line feed, too.
abbrev pub IsReadable : Text → Type 0
IsReadable f = contains_special f ≡ false → IsFree 0x0d f

plain_lem :
    (f e : Text)
    → contains_special f ≡ false
    → IsFree 0x0d f
    → read_csv plain (f ++ e) ≡ push_all f (read_csv plain e)
unfolding read_csv contains_special is_special
plain_lem [] e h g = refl
plain_lem (c ∷ f) e h g = ground (arith, g.0, plain_lem f e (ground (arith, h)) g.1)

unquoted_lem :
    (f e : Text)
    → contains_special f ≡ false
    → IsFree 0x0d f
    → IsEnd e
    → read_csv start (f ++ e) ≡ push_all f (read_csv plain e)
unfolding read_csv contains_special is_special
unquoted_lem [] e h g k = start_lem e k
unquoted_lem (c ∷ f) e h g k = ground (arith, g.0, plain_lem f e (ground (arith, h)) g.1)

opened_lem : (s : Text) → read_csv start (0x22 ∷ s) ≡ read_csv quoted s
unfolding read_csv
opened_lem s = refl

field_lem :
    (f e : Text)
    → IsReadable f
    → IsEnd e
    → read_csv start (escape_field f ++ e) ≡ push_all f (read_csv plain e)
unfolding escape_field
field_lem f e g k = elim (Bool-cases (contains_special f)) [
  | inr n ↦ rw (n, escape_field) (unquoted_lem f e n (g n) k)
  | inl y ↦
      rw (y, escape_field)
        (rw (append_assoc (double_quotes f) (0x22 ∷ []) e) (
          opened_lem (double_quotes f ++ (0x22 ∷ e))
          ∙ quoted_lem f e
          ∙ ap (push_all f) (after_lem e k)))
]

newline_lem : (s : Text) → read_csv plain (0x0a ∷ s) ≡ ([] ∷ []) ∷ read_csv line s
unfolding read_csv
newline_lem s = refl

comma_lem : (s : Text) → read_csv plain (b',' ∷ s) ≡ next_field (read_csv start s)
unfolding read_csv
comma_lem s = refl

line_lem : (a s : Text) → read_csv line (a ++ (0x0a ∷ s)) ≡ read_csv start (a ++ (0x0a ∷ s))
unfolding read_csv
line_lem [] s = refl
line_lem (c ∷ a) s = refl

push_all-field :
    (f a : Text) (fs : List Text) (rs : List (List Text))
    → push_all f ((a ∷ fs) ∷ rs) ≡ ((f ++ a) ∷ fs) ∷ rs
push_all-field [] a fs rs = refl
push_all-field (c ∷ f) a fs rs = rw (push_all-field f a fs rs) refl

row_lem :
    (f : Text) (fs : List Text) (rest : Text)
    → All IsReadable (f ∷ fs)
    → read_csv start (join (txt ",") (escape_csv (f ∷ fs)) ++ (0x0a ∷ rest))
      ≡ (f ∷ fs) ∷ read_csv line rest
unfolding escape_csv join txt
row_lem f [] rest g =
    rw
      (
        field_lem f (0x0a ∷ rest) g.0 (newline rest),
        newline_lem rest,
        push_all-field f [] [] (read_csv line rest),
        append-nil f,
      )
      refl
row_lem f (g ∷ fs) rest r =
    let tail = join (txt ",") (escape_csv (g ∷ fs)) in
    let more : Text = tail ++ (0x0a ∷ rest) in
    rw
      (
        append_assoc (escape_field f) (b',' ∷ tail) (0x0a ∷ rest),
        field_lem f (b',' ∷ more) r.0 (comma more),
        comma_lem more,
        row_lem g fs rest r.1,
        push_all-field f [] (g ∷ fs) (read_csv line rest),
        append-nil f,
      )
      refl

line_row :
    (f : Text) (fs : List Text) (codec : Codec) (b : Bool) (rest : Text)
    → All IsReadable (f ∷ fs)
    → read_csv line (csv_line codec b (f ∷ fs) ++ rest) ≡ (f ∷ fs) ∷ read_csv line rest
line_row f fs codec b rest g =
    let text = join (txt ",") (escape_csv (f ∷ fs)) in
    rw (append_assoc text (0x0a ∷ []) rest) (line_lem text rest ∙ row_lem f fs rest g)

abbrev tail_of : List Text → Text × List Text
tail_of [] = ([], [])
tail_of (f ∷ fs) = (f, fs)

lines_lem :
    (codec : Codec) (b : Bool) (rows : List AuditEventRow)
    → All (λ r. All IsReadable (csv_fields codec b r)) rows
    → read_csv line (csv_lines codec b rows) ≡ map (csv_fields codec b) rows
unfolding csv_lines csv_fields read_csv
lines_lem codec b [] g = refl
lines_lem codec b (r ∷ rs) g =
    line_row (tail_of (csv_fields codec b r)).0 (tail_of (csv_fields codec b r)).1 codec b
      (csv_lines codec b rs) g.0
    ∙ ap (λ x. csv_fields codec b r ∷ x) (lines_lem codec b rs g.1)

header_lem :
    (codec : Codec) (b : Bool)
    → csv_line codec b (csv_columns b) ≡ join (txt ",") (csv_columns b) ++ (0x0a ∷ [])
unfolding csv_columns escape_csv escape_field contains_special is_special txt join
header_lem codec true = refl
header_lem codec false = refl

abbrev has_return : Text → Bool
has_return [] = false
has_return (c ∷ s) = c == 0x0d || has_return s

has_return-IsFree : (f : Text) → has_return f ≡ false → IsFree 0x0d f
has_return-IsFree [] h = tt
has_return-IsFree (c ∷ s) h = (ground (arith, h), has_return-IsFree s (ground (arith, h)))

pub free_all : (fs : List Text) → All (λ f. has_return f ≡ false) fs → All IsReadable fs
free_all [] h = tt
free_all (f ∷ fs) h = ((λ n. has_return-IsFree f h.0), free_all fs h.1)

columns-AreReadable : (b : Bool) → All IsReadable (csv_columns b)
unfolding csv_columns txt
columns-AreReadable true =
    free_all (csv_columns true)
      (refl, (refl, (refl, (refl, (refl, (refl, (refl, (refl, (refl, tt)))))))))
columns-AreReadable false =
    free_all (csv_columns false) (refl, (refl, (refl, (refl, (refl, (refl, (refl, (refl, tt))))))))

-- Where no field has a carriage return without a comma, a quotation mark or a line feed: the CSV of the
-- export, read by a reader for which a line feed or a carriage return outside quotation marks ends the
-- record, is a record of the names of the columns, then for each event a record of exactly its fields,
-- whatever commas, quotation marks and line feeds they hold.
pub read_csv-write_csv_export :
    (codec : Codec) (include_payload : Bool) (rows : List AuditEventRow)
    → All (λ r. All IsReadable (csv_fields codec include_payload r)) rows
    → read_csv line (write_csv_export codec include_payload rows)
      ≡ csv_columns include_payload ∷ map (csv_fields codec include_payload) rows
unfolding write_csv_export csv_columns
read_csv-write_csv_export codec b rows g =
    let lines = csv_lines codec b rows in
    ap (λ x. read_csv line (x ++ lines)) (sym (header_lem codec b))
    ∙ (line_row (tail_of (csv_columns b)).0 (tail_of (csv_columns b)).1 codec b lines
          (columns-AreReadable b)
        ∙ ap (λ x. csv_columns b ∷ x) (lines_lem codec b rows g))
