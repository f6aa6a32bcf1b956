-- ===== src/Incidents/Store/Find.antt =====
-- How a row is found by its id after an `UPDATE` or an `INSERT`.
use indu_sense.Base.{
  String, ◌≡◌, refl, true, Option, none, some, List, [], ◌∷◌, map, arith, eq_iff, any, find,
}
use indu_sense.Incidents.{Row}
use indu_sense.Incidents.Tables.{Db, has_id}
use indu_sense.Incidents.Store.{at_id}

abbrev pub map_row : (Row → Row) → Option Row → Option Row
map_row f none = none
map_row f (some r) = some (f r)

-- `SELECT … WHERE id = %s`
abbrev pub row_of : String → Db → Option Row
row_of id db = find (has_id id) db.incidents

abbrev pub status : Option Row → Option String
status none = none
status (some r) = some r.status

-- the status that the table holds for an id
abbrev pub status_of : String → Db → Option String
status_of id db = status (row_of id db)

-- a change of a row that leaves its id
abbrev pub KeepsId : (Row → Row) → Type 0
KeepsId f = (r : Row) → (f r).id ≡ r.id

pub find-update :
    (id j : String) (f : Row → Row) (rows : List Row)
    → KeepsId f
    → find (has_id j) (map (at_id id f) rows) ≡ map_row (at_id id f) (find (has_id j) rows)
find-update id j f [] k = refl
find-update id j f (r ∷ rows) k = ground (arith, k r, find-update id j f rows k)

pub find-has_id :
    (id : String) (rows : List Row) (r : Row) → find (has_id id) rows ≡ some r → r.id ≡ id
find-has_id id (x ∷ rows) r h = ground (arith, eq_iff x.id id, find-has_id id rows r)
find-has_id id [] r h = ground arith

pub any-find :
    (id : String) (rows : List Row) (r : Row)
    → find (has_id id) rows ≡ some r
    → any (has_id id) rows ≡ true
any-find id [] r h = ground arith
any-find id (x ∷ rows) r h = ground (arith, any-find id rows r)

pub any-update :
    (id j : String) (f : Row → Row) (rows : List Row)
    → KeepsId f
    → any (has_id j) (map (at_id id f) rows) ≡ any (has_id j) rows
any-update id j f [] k = refl
any-update id j f (r ∷ rows) k = ground (arith, k r, any-update id j f rows k)
