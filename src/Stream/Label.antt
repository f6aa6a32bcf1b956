-- ===== src/Stream/Label.antt =====
-- `_duration_label` of services/stream-processor/main.py, for a number of seconds; `shown` writes a
-- number in decimal.
use indu_sense.Base.{ℕ, ◌/◌, ◌%◌, String, concat, [], ◌∷◌, ltb, if◌then◌else◌}

unfoldable pub duration_label : (ℕ → String) → ℕ → String
duration_label shown total =
    let hours = total / 3600 in
    let minutes = total % 3600 / 60 in
    let seconds = total % 3600 % 60 in
    if ltb total 60
    then concat (shown total ∷ "s" ∷ [])
    else if ltb 0 hours
    then concat (shown hours ∷ "h" ∷ shown minutes ∷ "m" ∷ shown seconds ∷ "s" ∷ [])
    else concat (shown minutes ∷ "m" ∷ shown seconds ∷ "s" ∷ [])
