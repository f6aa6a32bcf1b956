-- ===== src/Api/Alerts.antt =====
-- services/api/handlers_alerts.py over the table of alerts that the alert service fills. An alert is
-- answered as it is stored, before its optional fields are left out.
pub mod Acknowledged
use indu_sense.Base.{
  ℕ, String, Bool, true, false, ◌&&◌, Option, none, some, List, [], ◌∷◌, map, ◌==◌, leb,
  if◌then◌else◌, any, filter, find, take, drop,
}
use indu_sense.Base.Order.{order_by}
use indu_sense.Events.{ℤ}
use indu_sense.Alerts.Store.{Alert, AlertRow}
use indu_sense.Auth.Token.{Claims}
use indu_sense.Api.{Response, success, refused, parse_limit_offset, Page, paginated_response}

-- `AND column = %s`, where a filter is given
abbrev pub matches : String → String → Bool
matches wanted value = if wanted == "" then true else value == wanted

abbrev pub is_listed : String → String → String → AlertRow → Bool
is_listed org_id status_filter severity_filter r =
    r.alert.organization_id == org_id
    && (matches status_filter r.alert.status && matches severity_filter r.alert.severity)

abbrev pub latest_first : AlertRow → AlertRow → Bool
latest_first r s = leb s.created_at r.created_at

unfoldable pub list_alerts :
    (String → Option ℤ)
    → Option String
    → Option String
    → String
    → String
    → Claims
    → List AlertRow
    → Page Alert
list_alerts int limit offset status_filter severity_filter claims rows =
    let page = parse_limit_offset int limit offset in
    paginated_response
      (map (λ r. r.alert)
        (take page.0 (
          drop page.1 (
            order_by latest_first
              (filter (is_listed claims.organization_id status_filter severity_filter) rows)))))
      page.0 page.1

abbrev pub is_in : String → String → AlertRow → Bool
is_in org_id id r = r.alert.id == id && r.alert.organization_id == org_id

abbrev found : Option AlertRow → Response Alert
found none = refused 404 "NOT_FOUND"
found (some r) = success r.alert

unfoldable pub get_alert : String → Claims → List AlertRow → Response Alert
get_alert id claims rows = found (find (is_in claims.organization_id id) rows)

abbrev pub is_open_in : String → String → AlertRow → Bool
is_open_in org_id id r = is_in org_id id r && r.alert.status == "OPEN"

abbrev pub acknowledged : AlertRow → AlertRow
acknowledged r = record r { alert = record r.alert { status = "ACKNOWLEDGED" } }

abbrev pub acknowledged_if : (AlertRow → Bool) → AlertRow → AlertRow
acknowledged_if t r = if t r then acknowledged r else r

-- the `UPDATE`, and 409 if it changed no row
unfoldable pub acknowledge_alert :
    String → Claims → List AlertRow → Response (Unit {0}) × List AlertRow
acknowledge_alert id claims rows =
    let t = is_open_in claims.organization_id id in
    (if any t rows then success tt else refused 409 "CONFLICT", map (acknowledged_if t) rows)
