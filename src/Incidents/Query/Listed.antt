-- ===== src/Incidents/Query/Listed.antt =====
-- What `list` of shared/incidents.py gives: the organization's own incidents, newest first, and no
-- more than were asked for.
use indu_sense.Base.{
  ℕ, zero, suc, ◌≤◌, String, true, List, [], ◌∷◌, map, ◌≡◌, ◌⊎◌, inl, inr, arith, ◌==◌, eq_iff,
  leb→le, leb→gt, filter, take, drop, length, All, Bool-cases,
}
use indu_sense.Base.Order.{
  insert_by, order_by, All-filter, All-insert_by, All-order_by, All-drop, All-take, All-weaken,
  All-map,
}
use indu_sense.Incidents.{Row, Incident}
use indu_sense.Incidents.Tables.{Db, row_to_incident}
use indu_sense.Incidents.Query.{newest_first, passes, list}

-- no row is newer than the one before it
abbrev NewestFirst : List Row → Type 0
NewestFirst [] = Unit
NewestFirst (r ∷ rows) = All (λ s. s.opened_at ≤ r.opened_at) rows × NewestFirst rows

insert_by-NewestFirst :
    (r : Row) (rows : List Row) → NewestFirst rows → NewestFirst (insert_by newest_first r rows)
unfolding insert_by
insert_by-NewestFirst r [] h = (tt, tt)
insert_by-NewestFirst r (s ∷ rows) h = elim (Bool-cases (newest_first r s)) [
  | inl e ↦ rw e (
    (
      leb→le s.opened_at r.opened_at e,
      All-weaken (λ q. q.opened_at ≤ s.opened_at) (λ q. q.opened_at ≤ r.opened_at) rows
          (λ q p. omega (arith, leb→le s.opened_at r.opened_at e)) h.0,
    ),
    h,
  )
  | inr e ↦ rw e (
    All-insert_by (λ q. q.opened_at ≤ s.opened_at) newest_first r rows
        (omega (arith, leb→gt s.opened_at r.opened_at e)) h.0,
    insert_by-NewestFirst r rows h.1,
  )
]

order_by-NewestFirst : (rows : List Row) → NewestFirst (order_by newest_first rows)
unfolding order_by
order_by-NewestFirst [] = tt
order_by-NewestFirst (r ∷ rows) =
    insert_by-NewestFirst r (order_by newest_first rows) (order_by-NewestFirst rows)

drop-NewestFirst : (n : ℕ) (rows : List Row) → NewestFirst rows → NewestFirst (drop n rows)
drop-NewestFirst zero rows h = h
drop-NewestFirst (suc n) [] h = h
drop-NewestFirst (suc n) (r ∷ rows) h = drop-NewestFirst n rows h.1

take-NewestFirst : (n : ℕ) (rows : List Row) → NewestFirst rows → NewestFirst (take n rows)
take-NewestFirst zero rows h = tt
take-NewestFirst (suc n) [] h = tt
take-NewestFirst (suc n) (r ∷ rows) h = (All-take _ n rows h.0, take-NewestFirst n rows h.1)

length-take : (n : ℕ) (rows : List Row) → length (map row_to_incident (take n rows)) ≤ n
length-take zero rows = omega arith
length-take (suc n) [] = omega arith
length-take (suc n) (r ∷ rows) = omega (arith, length-take n rows)

-- an incident that the caller may see, and asked for
abbrev pub IsAskedFor : String → String → Incident → Type 0
IsAskedFor org_id status_filter i =
    (i.organization_id ≡ org_id) × ((status_filter ≡ "") ⊎ (i.status ≡ status_filter))

abbrev pub IsNewestFirst : List Incident → Type 0
IsNewestFirst [] = Unit
IsNewestFirst (i ∷ is) = All (λ j. j.opened_at ≤ i.opened_at) is × IsNewestFirst is

map-IsNewestFirst : (rows : List Row) → NewestFirst rows → IsNewestFirst (map row_to_incident rows)
map-IsNewestFirst [] h = tt
map-IsNewestFirst (r ∷ rows) h = (All-map _ row_to_incident rows h.0, map-IsNewestFirst rows h.1)

passes-IsAskedFor :
    (org_id status_filter : String) (r : Row)
    → passes org_id status_filter r ≡ true
    → IsAskedFor org_id status_filter (row_to_incident r)
passes-IsAskedFor org status r h = (
  ground (arith, eq_iff r.organization_id org),
  elim (Bool-cases (status == "")) [
    | inl e ↦ inl ((eq_iff status "").0 e)
    | inr e ↦ inr (ground (arith, eq_iff r.status status))
  ],
)

-- Each incident that list returns is of the organization and has the status that was asked for, if any,
-- the newest come first, and there are at most `limit` of them.
pub list-IsAskedFor :
    (org_id status_filter : String) (limit offset : ℕ) (db : Db)
    → let is = list org_id status_filter limit offset db in
      All (IsAskedFor org_id status_filter) is × IsNewestFirst is × (length is ≤ limit)
unfolding list
list-IsAskedFor org status limit offset db =
    let kept = filter (passes org status) db.incidents in
    let asked : Row → Type 0 = λ r. IsAskedFor org status (row_to_incident r) in
    let page = take limit (drop offset (order_by newest_first kept)) in
    (
      All-map (IsAskedFor org status) row_to_incident page (
          All-take asked limit _ (
            All-drop asked offset _ (
              All-order_by asked newest_first kept (
                All-filter asked (passes org status) db.incidents
                  (passes-IsAskedFor org status))))),
      map-IsNewestFirst page
          (take-NewestFirst limit _ (drop-NewestFirst offset _ (order_by-NewestFirst kept))),
      length-take limit (drop offset (order_by newest_first kept)),
    )
