-- ===== src/Observability/Events.antt =====
-- An event is let through once in an interval, and the labels of the metrics are bounded.
use foip_operator.Prelude.{
  ℕ, ◌+◌, ◌-◌, ◌≤◌, String, Bool, true, not, none, List, [], ◌∷◌, leb, keep, exists, Occurs, ◌≡◌,
  refl, ◌↔◌, inl, inr, arith, str_eq, str_eq_refl, str_eq_iff, Bool-cases,
}
use foip_operator.Prelude.Lists.{here, there}
use foip_operator.Observability.{
  Entry, EventDeduper, is_old, prune, find_entry, put_entry, is_recent, allow, bounded_label,
}

find-keep-none :
    (p : Entry → Bool) (es : List Entry) (key : String)
    → find_entry es key ≡ none
    → find_entry (keep p es) key ≡ none
unfolding find_entry keep
find-keep-none p [] key h = refl
find-keep-none p (e ∷ es) key h = ground (arith, find-keep-none p es key)

find-keep_others :
    (es : List Entry) (key : String) → find_entry (keep (λ e. not (str_eq e.key key)) es) key ≡ none
unfolding find_entry keep
find-keep_others [] key = refl
find-keep_others (e ∷ es) key = ground (arith, find-keep_others es key)

recent-put_entry :
    (es : List Entry) (key : String) (interval now time : ℕ)
    → now ≤ time
    → is_recent interval time
        (find_entry (keep (λ e. not (is_old interval time e)) (put_entry es key now)) key)
      ≡ not (leb interval (time - now))
unfolding is_recent find_entry put_entry keep
recent-put_entry es key interval now time later = ground (
  arith,
  str_eq_refl key,
  find-keep-none (λ e. not (is_old interval time e)) (keep (λ e. not (str_eq e.key key)) es) key
      (find-keep_others es key),
)

exists-Occurs :
    (allowed : List String) (value : String)
    → exists (λ a. str_eq a value) allowed ≡ true
    → Occurs value allowed
unfolding exists
exists-Occurs [] value h = absurd (cc h)
exists-Occurs (a ∷ rest) value h = elim (Bool-cases (str_eq a value)) [
  | inl same ↦ here ((str_eq_iff a value).0 same)
  | inr differs ↦ there (exists-Occurs rest value (ground arith))
]

-- After an event of a key was let through, the next event of the key is let through exactly if the
-- interval has passed.
pub allow-allow :
    (d : EventDeduper) (key : String) (now time : ℕ)
    → now ≤ time
    → (allow d key now).0 ≡ true
    → ((allow (allow d key now).1 key time).0 ≡ true) ↔ (now + d.interval ≤ time)
unfolding allow prune
allow-allow d key now time later first =
    let recent = recent-put_entry (prune d now) key d.interval now time later in
    elim (Bool-cases (is_recent d.interval now (find_entry (prune d now) key))) [
      | inl refused ↦ absurd (cc (rw (refused, allow) at first))
      | inr admitted ↦ rw (admitted, allow, prune, recent) (λ h. ground arith, λ h. ground arith)
    ]

-- A bounded label is one of the allowed values, or "other".
bounded_label-Occurs :
    (value : String) (allowed : List String)
    → Occurs (bounded_label value allowed) ("other" ∷ allowed)
unfolding bounded_label
bounded_label-Occurs value allowed = elim (Bool-cases (exists (λ a. str_eq a value) allowed)) [
  | inl found ↦ rw (found, bounded_label) (there (exists-Occurs allowed value found))
  | inr absent ↦ rw (absent, bounded_label) (here refl)
]
