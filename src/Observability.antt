-- ===== src/Observability.antt =====
-- internal/observability: the event deduper of observability.go and the bounded labels of
-- metrics.go. The mutex makes each call of Allow one step; the map is a list of entries with
-- distinct keys.
pub mod Events
pub mod Metrics
pub mod Cardinality
pub mod Gauge
pub mod Tracing
use foip_operator.Prelude.{
  ℕ, ℤ, pos, ◌-◌, String, Bool, true, false, not, ◌&&◌, Option, none, some, List, [], ◌∷◌, leb, ltb,
  is_pos, to_nat, keep, exists, if◌then◌else◌, str_eq,
}
use foip_operator.Controller.Backoff.{minute}

-- An entry of the map: the key and the time it was last let through.
pub record Entry : Type 0 where
  pub key : String
  pub last : ℕ

-- EventDeduper.
pub record EventDeduper : Type 0 where
  pub seen : List Entry
  pub interval : ℕ

-- NewEventDeduper.
unfoldable pub new_event_deduper : ℤ → EventDeduper
new_event_deduper interval = record {
  seen = [];
  interval = if is_pos interval then to_nat interval else minute;
}

-- now.Sub(last) >= interval; a time before `last` gives a negative duration.
abbrev pub is_old : ℕ → ℕ → Entry → Bool
is_old interval now e = leb (e.last) now && leb interval (now - e.last)

-- The entries that the first loop of Allow leaves.
unfoldable pub prune : EventDeduper → ℕ → List Entry
unfolding keep
prune d now = keep (λ e. not (is_old d.interval now e)) d.seen

unfoldable pub find_entry : List Entry → String → Option Entry
find_entry [] key = none
find_entry (e ∷ es) key = if str_eq e.key key then some e else find_entry es key

-- d.seen[key] = now.
unfoldable pub put_entry : List Entry → String → ℕ → List Entry
unfolding keep
put_entry es key now = record { key = key; last = now } ∷ keep (λ e. not (str_eq e.key key)) es

-- Whether an entry of the key is within the interval.
unfoldable pub is_recent : ℕ → ℕ → Option Entry → Bool
is_recent interval now none = false
is_recent interval now (some e) = not (is_old interval now e)

-- Allow: whether the event is let through, and the deduper afterwards.
unfoldable pub allow : EventDeduper → String → ℕ → Bool × EventDeduper
allow d key now =
    if is_recent d.interval now (find_entry (prune d now) key)
    then (false, record d { seen = prune d now })
    else (true, record d { seen = put_entry (prune d now) key now })

-- boundedLabel.
unfoldable pub bounded_label : String → List String → String
unfolding exists
bounded_label value allowed = if exists (λ a. str_eq a value) allowed then value else "other"
