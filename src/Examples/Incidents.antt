-- ===== src/Examples/Incidents.antt =====
-- Runs of shared/incidents.py on a table of two incidents.
use indu_sense.Base.{
  ◌⊎◌, ◌==◌, ◌↔◌, ℕ, String, ◌≡◌, refl, ◌≢◌, Bool, true, false, none, some, List, [], ◌∷◌, ◌++◌,
  All,
}
use indu_sense.Incidents.{AlertRef, Row, is_valid_transition}
use indu_sense.Incidents.Lifecycle.{Status, text, ◌⟶◌, is_valid_transition-step}
use indu_sense.Incidents.Tables.{
  Db, Reply, ok, raised, invalid_transition, event_refused, one_active, new_row,
}
use indu_sense.Incidents.Store.{transition, resolve, open_or_attach}
use indu_sense.Incidents.Store.Find.{row_of, status_of}
use indu_sense.Incidents.Store.Transition.{alone, change_event, transition-ok, transition-raised}
use indu_sense.Incidents.Store.Attach.{opened_event}
use indu_sense.Incidents.Store.OneActive.{
  open_or_attach-one_active, open_or_attach-active, WasActive,
}
use indu_sense.Incidents.Store.Storm.{undisturbed, attachments, attach_all, attach_all-opens_one}
use indu_sense.Incidents.Store.Races.{resolve_overwrites_notes, transition_ignores_commits}
use indu_sense.Incidents.Store.Closed.{
  Request, alerts, moves, assigns, resolves, serve_all, serve_all-closed,
}

abbrev alert : String → AlertRef
alert id = record {
  id = id;
  organization_id = "org";
  severity = "HIGH";
  factory_id = "f1";
  machine_id = "m1";
  device_id = "d1";
  sensor_id = "";
  title = "too hot";
  description = "";
}

abbrev row : String → String → String → Row
row id machine status = record (new_row id 5 (alert "a0")) {
  machine_id = some machine;
  status = status;
}

abbrev pub db : Db
db = record {
  incidents = row "i1" "m1" "RESOLVED" ∷ row "i2" "m2" "CLOSED" ∷ [];
  events = [];
  published = [];
  refuses = λ e. false;
}

is_valid_transition-step_example :
    (is_valid_transition "OPEN" "RESOLVED" ≡ true)
    ↔ ((a : Status) × (b : Status) × ("OPEN" ≡ text a) × ("RESOLVED" ≡ text b) × (a ⟶ b))
is_valid_transition-step_example = is_valid_transition-step "OPEN" "RESOLVED"

transition-ok_example :
    let db' = (transition alone none (some "u") "again" 9 "i1" "INVESTIGATING" db).1 in
    (old : String) × (some "RESOLVED" ≡ some old)
    × (is_valid_transition old "INVESTIGATING" ≡ true)
    × (status_of "i1" db' ≡ some "INVESTIGATING")
    × ((j : String) → j ≢ "i1" → row_of j db' ≡ row_of j db)
    × (db'.events
        ≡ db.events ++ change_event none (some "u") "again" 9 "i1" "INVESTIGATING" db old ∷ [])
unfolding transition is_valid_transition
transition-ok_example = transition-ok none (some "u") "again" 9 "i1" "INVESTIGATING" db refl

-- a table that refuses one note
abbrev refusing : Db
refusing = record db { refuses = λ e. e.note == "bad" }

transition-raised_example :
    let db' = (transition alone none none "bad" 9 "i1" "INVESTIGATING" refusing).1 in
    (db' ≡ refusing)
    ⊎ ((event_refused ≡ event_refused)
        × ((old : String) × (some "RESOLVED" ≡ some old)
            × (is_valid_transition old "INVESTIGATING" ≡ true)
            × (status_of "i1" db' ≡ some "INVESTIGATING")
            × ((j : String) → j ≢ "i1" → row_of j db' ≡ row_of j refusing)
            × (db'.events ≡ [])))
unfolding transition is_valid_transition
transition-raised_example =
    transition-raised none none "bad" 9 "i1" "INVESTIGATING" refusing {e = event_refused} refl

open_or_attach-one_active_example :
    one_active (open_or_attach undisturbed none "i3" 9 (alert "a1") db).1.incidents ≡ true
open_or_attach-one_active_example =
    open_or_attach-one_active undisturbed none "i3" 9 (alert "a1") db (λ gap d h. h) refl

open_or_attach-active_example : WasActive undisturbed none "i3" 9 (alert "a1") db "i3" true
unfolding open_or_attach indu_sense.Incidents.Store.attach_machine
open_or_attach-active_example = open_or_attach-active undisturbed none "i3" 9 (alert "a1") db refl

attach_all-opens_one_example :
    let s =
      attach_all none 9 (("i3", alert "a1") ∷ ("i4", alert "a2") ∷ ("i5", alert "a3") ∷ []) db in
    (s.1.incidents ≡ db.incidents ++ new_row "i3" 9 (alert "a1") ∷ [])
    × (s.1.events
        ≡ []
          ++ opened_event 9 (alert "a1") "i3"
            ∷ attachments 9 "i3" (("i4", alert "a2") ∷ ("i5", alert "a3") ∷ []))
    × ((replies : List (Reply (String × Bool))) × (s.0 ≡ ok ("i3", true) ∷ replies)
        × All (λ a. a ≡ ok ("i3", false)) replies)
attach_all-opens_one_example =
    attach_all-opens_one none 9 "m1" "i3" (alert "a1")
      (("i4", alert "a2") ∷ ("i5", alert "a3") ∷ []) db refl (λ e. refl) refl
      (refl, (refl, (refl, tt)))

resolve_overwrites_notes_example :
    ((resolve alone none none 9 "i2" "never mind" db).0 ≡ raised invalid_transition)
    × (row_of "i2" (resolve alone none none 9 "i2" "never mind" db).1
        ≡ some (record (row "i2" "m2" "CLOSED") { resolution_notes = some "never mind" }))
unfolding is_valid_transition
resolve_overwrites_notes_example =
    resolve_overwrites_notes none none 9 "i2" "never mind" db (row "i2" "m2" "CLOSED") refl refl
      refl

-- another connection closes the incident before this one writes
abbrev closes_i1 : Db → Db
closes_i1 d = (transition alone none none "" 8 "i1" "CLOSED" d).1

transition_ignores_commits_example :
    ((transition closes_i1 none none "" 9 "i1" "INVESTIGATING" db).0 ≡ ok tt)
    × (status_of "i1" (transition closes_i1 none none "" 9 "i1" "INVESTIGATING" db).1
        ≡ some "INVESTIGATING")
unfolding transition is_valid_transition
transition_ignores_commits_example =
    transition_ignores_commits closes_i1 none none "" 9 "i1" "INVESTIGATING" db
      (row "i1" "m1" "RESOLVED")
      (record (row "i1" "m1" "CLOSED") { closed_at = some 8; updated_at = 8 }) refl refl refl refl
      refl

abbrev requests : List (ℕ × Request)
requests =
    (7, alerts "i3" (alert "a1"))
    ∷ (8, moves none "" "i2" "INVESTIGATING")
    ∷ (9, assigns none "i2" "u")
    ∷ (10, resolves none "i2" "done")
    ∷ []

serve_all-closed_example : status_of "i2" (serve_all none requests db) ≡ some "CLOSED"
serve_all-closed_example = serve_all-closed none "i2" requests db refl
