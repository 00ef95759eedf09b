-- ===== src/Api/Incidents/Closing.antt =====
-- api/incidents.go: what an accepted change of an incident has gone through.
use rubez_ai.Prelude.{ℕ, ◌≡◌, true, false, Option, some, List, Text}
use rubez_ai.Prelude.Result.{Result, ok}
use rubez_ai.Auth.{Role, Identity}
use rubez_ai.Storage.Incidents.{Incident, IncidentAudit, Tables, Db}
use rubez_ai.Storage.Incidents.Patch.{IncidentPatch}
use rubez_ai.Storage.Incidents.Locking.{IsPatched}
use rubez_ai.Api.Http.{Reply}
use rubez_ai.Api.Ids.{DbError, current_user_id}
use rubez_ai.Api.Audit.{Codec}
use rubez_ai.Api.Incidents.{incident_write_roles, permitted, IncidentDto, IncidentPatchDto}
use rubez_ai.Api.Incidents.Editing.{closes, is_blank, build_incident_patch, enrich_audits_with_from}

abbrev with_tables : Tables → Reply IncidentDto → Reply IncidentDto × Tables
with_tables t r = (r, t)

module _ (codec : Codec) (db : Db) (user_id_for_role : Role → Result DbError Text) where
  -- An accepted change, by `actor`.
  pub record IsAccepted (identity : Option Identity) (id if_match : Text)
      (body : Option IncidentPatchDto) (t : Tables) (out : IncidentDto) (t' : Tables) : Type 0 where
    pub dto : IncidentPatchDto
    pub actor : Text
    pub expected : ℕ
    pub p : IncidentPatch
    pub audits : List IncidentAudit
    pub before : Incident
    pub role : permitted incident_write_roles identity ≡ true
    pub user : current_user_id user_id_for_role identity ≡ ok actor
    pub time : codec.parse_time if_match ≡ some expected
    pub decoded : body ≡ some dto
    pub built : build_incident_patch dto actor ≡ ok (p, audits)
    pub said :
        (p.status ≡ dto.status) × (p.severity ≡ dto.severity) × (p.resolution ≡ dto.resolution)
    pub explained :
        closes dto.status ≡ true
        → (r : Text) × (is_blank (some r) ≡ false) × (out.incident.resolution ≡ some r)
    pub change :
        IsPatched db id p expected (enrich_audits_with_from audits before p) t out.incident t'
