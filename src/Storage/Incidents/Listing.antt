-- ===== src/Storage/Incidents/Listing.antt =====
-- storage/incidents.go: the query that lists incidents, and which it lists.
use rubez_ai.Prelude.{
  ℕ, suc, Bool, true, false, not, ◌&&◌, ◌||◌, Option, none, some, List, [], ◌∷◌, ◌++◌, map, ltb,
  leb, ◌==◌, if◌then◌else◌, length, take, keep_if, Text, txt, text_lt,
}
use rubez_ai.Prelude.Sort.{sort_by}
use rubez_ai.Chat.Rag.{decimal}
use rubez_ai.Chat.Records.{join}
use rubez_ai.Storage.Audit.{placeholder, Arg, time, number, str, strs}
use rubez_ai.Storage.Audit.Query.{arg_at, member, option_is, on_time, on_text, on_texts}
use rubez_ai.Storage.Incidents.{Incident}

pub record IncidentFilter : Type 0 where
  pub statuses : List Text
  pub severities : List Text
  pub assignee_id : Option Text
  pub has_reporter : Option Bool
  pub from : Option ℕ
  pub to : Option ℕ
  pub cursor_created_at : Option ℕ
  pub cursor_id : Option Text
  pub limit : ℕ

-- The conditions by the numbers of their placeholders.
pub data IncidentCond : Type 0 where
  before_cursor : ℕ → ℕ → IncidentCond
  status_in severity_in assignee_is at_least at_most : ℕ → IncidentCond
  reporter_is_null : Bool → IncidentCond

unfoldable pub incident_cond_text : IncidentCond → Text
unfolding txt
incident_cond_text (before_cursor i j) =
    placeholder "(created_at, id) < ($" i ", $" ++ (decimal j ++ txt "::uuid)")
incident_cond_text (status_in i) = placeholder "status = ANY($" i ")"
incident_cond_text (severity_in i) = placeholder "severity = ANY($" i ")"
incident_cond_text (assignee_is i) = placeholder "assignee_id = $" i ""
incident_cond_text (at_least i) = placeholder "created_at >= $" i ""
incident_cond_text (at_most i) = placeholder "created_at <= $" i ""
incident_cond_text (reporter_is_null true) = txt "reporter_id IS NULL"
incident_cond_text (reporter_is_null false) = txt "reporter_id IS NOT NULL"

-- The slices `conds` and `args`.
pub record IncidentQuery : Type 0 where
  pub conds : List IncidentCond
  pub args : List Arg

abbrev add_cond : IncidentQuery → IncidentCond → List Arg → IncidentQuery
add_cond b c vals = record { conds = b.conds ++ (c ∷ []); args = b.args ++ vals }

abbrev next_arg : IncidentQuery → ℕ
next_arg b = suc (length b.args)

abbrev add_before : Option ℕ → Option Text → IncidentQuery → IncidentQuery
add_before (some t) (some i) b =
    add_cond b (before_cursor (next_arg b) (suc (next_arg b))) (time t ∷ str i ∷ [])
add_before (some t) none b = b
add_before none i b = b

abbrev add_any : (ℕ → IncidentCond) → List Text → IncidentQuery → IncidentQuery
add_any c [] b = b
add_any c (v ∷ vs) b = add_cond b (c (next_arg b)) (strs (v ∷ vs) ∷ [])

abbrev add_one {ℓ} :
    {A : Type ℓ} → (ℕ → IncidentCond) → (A → Arg) → Option A → IncidentQuery → IncidentQuery
add_one c arg none b = b
add_one c arg (some v) b = add_cond b (c (next_arg b)) (arg v ∷ [])

abbrev add_reporter : Option Bool → IncidentQuery → IncidentQuery
add_reporter none b = b
add_reporter (some v) b = add_cond b (reporter_is_null (not v)) []

unfoldable pub incident_conditions : IncidentFilter → IncidentQuery
incident_conditions f =
    let b0 : IncidentQuery = record { conds = []; args = [] } in
    let b1 = add_before f.cursor_created_at f.cursor_id b0 in
    let b2 = add_any status_in f.statuses b1 in
    let b3 = add_any severity_in f.severities b2 in
    let b4 = add_one assignee_is str f.assignee_id b3 in
    let b5 = add_reporter f.has_reporter b4 in
    add_one at_most time f.to (add_one at_least time f.from b5)

-- A limit of 0 stands for every limit that is not positive.
abbrev pub incident_limit : ℕ → ℕ
incident_limit n = if n == 0 || ltb 200 n then 50 else n

unfoldable pub incident_columns : Text
unfolding txt
incident_columns =
    txt
      "SELECT id, audit_event_id, user_id, reporter_id, assignee_id,\n\t             severity, status, title, summary, resolution,\n\t             closed_at, created_at, updated_at\n\t      FROM incidents"

unfoldable pub incident_where : List IncidentCond → Text
unfolding txt incident_cond_text
incident_where [] = []
incident_where (c ∷ cs) = txt " WHERE " ++ join (txt " AND ") (map incident_cond_text (c ∷ cs))

-- The text of the query and its arguments.
unfoldable pub list_incidents_query : IncidentFilter → Text × List Arg
unfolding txt incident_columns incident_where incident_conditions
list_incidents_query f =
    let b = incident_conditions f in
    let args = b.args ++ (number (incident_limit f.limit) ∷ []) in
    (
      incident_columns
          ++ (incident_where b.conds
              ++ (txt " ORDER BY created_at DESC, id DESC LIMIT $" ++ decimal (length args))),
      args,
    )

abbrev is_null : Option Text → Bool
is_null none = true
is_null (some t) = false

abbrev incident_before : Incident → ℕ → Text → Bool
incident_before r t i = ltb r.created_at t || (r.created_at == t && text_lt r.id i)

-- What a condition says of a row.
abbrev pub incident_holds : List Arg → Incident → IncidentCond → Bool
incident_holds args r (before_cursor i j) =
    on_time (arg_at args i) (λ t. on_text (arg_at args j) (λ u. incident_before r t u))
incident_holds args r (status_in i) = on_texts (arg_at args i) (λ ts. member r.status ts)
incident_holds args r (severity_in i) = on_texts (arg_at args i) (λ ts. member r.severity ts)
incident_holds args r (assignee_is i) = on_text (arg_at args i) (λ u. option_is r.assignee_id u)
incident_holds args r (at_least i) = on_time (arg_at args i) (λ t. leb t r.created_at)
incident_holds args r (at_most i) = on_time (arg_at args i) (λ t. leb r.created_at t)
incident_holds args r (reporter_is_null true) = is_null r.reporter_id
incident_holds args r (reporter_is_null false) = not (is_null r.reporter_id)

abbrev pub incident_all_hold : List Arg → Incident → List IncidentCond → Bool
incident_all_hold args r [] = true
incident_all_hold args r (c ∷ cs) = incident_holds args r c && incident_all_hold args r cs

abbrev incident_newer : Incident → Incident → Bool
incident_newer r s =
    ltb s.created_at r.created_at || (s.created_at == r.created_at && text_lt s.id r.id)

-- `ListIncidents` on the rows of the table.
unfoldable pub list_incidents : IncidentFilter → List Incident → List Incident
unfolding sort_by keep_if incident_conditions list_incidents_query
list_incidents f table =
    let args = (list_incidents_query f).1 in
    let found = keep_if (λ r. incident_all_hold args r (incident_conditions f).conds) table in
    take (incident_limit f.limit) (sort_by incident_newer found)
