-- ===== src/Stream/Registry.antt =====
-- services/stream-processor/registry.py.
use indu_sense.Base.{
  ℕ, String, ◌≡◌, refl, ap, ◌∙◌, Option, none, some, List, [], ◌∷◌, concat, ◌==◌, arith, eq_iff,
  if◌then◌else◌,
}
use indu_sense.Base.Dict.{Dict, lookup, insert, lookup-insert}
use indu_sense.Stream.Window.{SeriesBuffer, add}

pub record SeriesKey : Type 0 where
  pub factory_id : String
  pub production_line_id : String
  pub machine_id : String
  pub device_id : String
  pub sensor_id : String
  pub metric : String

-- `SeriesKey.id`
abbrev pub series_id : SeriesKey → String
series_id k = concat (k.device_id ∷ "|" ∷ k.metric ∷ [])

pub record SeriesRegistry (F : Type 0) : Type 0 where
  pub buffers : Dict (SeriesBuffer F)
  pub keys : Dict SeriesKey
  pub max_window : ℕ

module _ {F : Type 0} where
  abbrev pub new_buffer : ℕ → SeriesBuffer F
  new_buffer max_window = record { samples = []; max_window = max_window }

  -- The buffer is shared with the dictionary, so that `buf.add` changes it there.
  recorded : SeriesKey → ℕ → F → SeriesRegistry F → Option (SeriesBuffer F) → SeriesRegistry F
  recorded key at value r (some buf) = record r {
    buffers = insert (series_id key) (add at value buf) r.buffers;
  }
  recorded key at value r none = record r {
    buffers = insert (series_id key) (add at value (new_buffer r.max_window)) r.buffers;
    keys = insert (series_id key) key r.keys;
  }

  unfoldable pub record_sample : SeriesKey → ℕ → F → SeriesRegistry F → SeriesRegistry F
  unfolding recorded
  record_sample key at value r = recorded key at value r (lookup (series_id key) r.buffers)

  -- the buffer of a series, empty if it has not been seen
  abbrev or_new : ℕ → Option (SeriesBuffer F) → SeriesBuffer F
  or_new max_window none = new_buffer max_window
  or_new max_window (some b) = b

  abbrev pub buffer_of : String → SeriesRegistry F → SeriesBuffer F
  buffer_of id r = or_new r.max_window (lookup id r.buffers)

  chosen :
      (k id : String) (max_window at : ℕ) (value : F) (d : Dict (SeriesBuffer F))
      (buf : SeriesBuffer F)
      → or_new max_window (lookup k d) ≡ buf
      → or_new max_window (if k == id then some (add at value buf) else lookup id d) ≡ (
          if k == id
          then add at value (or_new max_window (lookup id d))
          else or_new max_window (lookup id d))
  chosen k id max_window at value d buf h = ground (arith, eq_iff k id)

  recorded-buffer_of :
      (key : SeriesKey) (at : ℕ) (value : F) (r : SeriesRegistry F) (o : Option (SeriesBuffer F))
      (id : String)
      → lookup (series_id key) r.buffers ≡ o
      → buffer_of id (recorded key at value r o)
        ≡ (if series_id key == id then add at value (buffer_of id r) else buffer_of id r)
  unfolding recorded
  recorded-buffer_of key at value r (some buf) id h =
      let k = series_id key in
      ap (λ z. or_new r.max_window z) (lookup-insert k id (add at value buf) r.buffers)
      ∙ chosen k id r.max_window at value r.buffers buf (ap (λ z. or_new r.max_window z) h)
  recorded-buffer_of key at value r none id h =
      let k = series_id key in
      ap (λ z. or_new r.max_window z)
        (lookup-insert k id (add at value (new_buffer r.max_window)) r.buffers)
      ∙ chosen k id r.max_window at value r.buffers (new_buffer r.max_window)
          (ap (λ z. or_new r.max_window z) h)

  -- Recording a sample adds it to the buffer of its series, which is new if there was none, and
  -- changes no other buffer.
  pub buffer_of-record_sample :
      (key : SeriesKey) (at : ℕ) (value : F) (r : SeriesRegistry F) (id : String)
      → buffer_of id (record_sample key at value r)
        ≡ (if series_id key == id then add at value (buffer_of id r) else buffer_of id r)
  unfolding record_sample
  buffer_of-record_sample key at value r id =
      recorded-buffer_of key at value r (lookup (series_id key) r.buffers) id refl

  -- the keys of the buffers, paired with what `_keys` holds for them
  tracked : Dict SeriesKey → Dict (SeriesBuffer F) → List (Option SeriesKey × SeriesBuffer F)
  tracked keys [] = []
  tracked keys ((id, buf) ∷ buffers) = (lookup id keys, buf) ∷ tracked keys buffers

  unfoldable pub snapshot : SeriesRegistry F → List (Option SeriesKey × SeriesBuffer F)
  unfolding tracked
  snapshot r = tracked r.keys r.buffers
