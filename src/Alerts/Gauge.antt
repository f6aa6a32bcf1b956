-- ===== src/Alerts/Gauge.antt =====
-- `_run_incident_gauge_refresher` of services/alert-service/main.py.
use indu_sense.Base.{
  ℕ, ◌+◌, String, Bool, not, ◌||◌, Option, none, some, List, [], ◌∷◌, ◌==◌, filter, length,
}
use indu_sense.Base.Dict.{Dict, lookup, insert}
use indu_sense.Incidents.{Row}

-- the two metrics
pub record Gauges : Type 0 where
  pub open_total : ℕ
  pub by_severity : Dict ℕ

abbrev is_open : Row → Bool
is_open r = not (r.status == "RESOLVED" || r.status == "CLOSED")

abbrev count_of : Option ℕ → ℕ
count_of none = 0
count_of (some n) = n

-- SELECT severity, count(*) ... GROUP BY severity
unfoldable pub by_severity : List Row → Dict ℕ
by_severity [] = []
by_severity (r ∷ rows) =
    let counts = by_severity rows in
    insert r.severity (count_of (lookup r.severity counts) + 1) counts

abbrev set_all : Dict ℕ → Dict ℕ → Dict ℕ
set_all [] gauge = gauge
set_all ((severity, n) ∷ counts) gauge = set_all counts (insert severity n gauge)

abbrev zero_unseen : List String → Dict ℕ → Dict ℕ → Dict ℕ
zero_unseen [] counts gauge = gauge
zero_unseen (s ∷ severities) counts gauge =
    zero_unseen severities counts
      (elim (lookup s counts) [ none ↦ insert s 0 gauge | some n ↦ gauge ])

abbrev set_counts : Dict ℕ → Gauges → Gauges
set_counts counts g = record g {
  by_severity =
      zero_unseen ("INFO" ∷ "WARNING" ∷ "HIGH" ∷ "CRITICAL" ∷ []) counts
        (set_all counts g.by_severity);
}

-- One round, over the rows that each of the two statements reads, if the database answers.
unfoldable pub refresh_incident_gauges : Option (List Row) → Option (List Row) → Gauges → Gauges
unfolding by_severity
refresh_incident_gauges none grouped g = g
refresh_incident_gauges (some rows) none g = record g { open_total = length (filter is_open rows) }
refresh_incident_gauges (some rows) (some grouped) g =
    set_counts (by_severity (filter is_open grouped))
      (record g { open_total = length (filter is_open rows) })
