-- ===== src/EventStore/Reload.antt =====
-- What a start makes of the stored events: doubled identifiers go, and the retention limit is kept.
use layeros.Base.{
  ℕ, ◌-◌, ◌≤◌, String, true, false, ◌||◌, ◌≡◌, refl, ap, ◌⊎◌, List, [], ◌∷◌, ◌++◌, arith,
  Bool-cases, inl, inr, leb, eqb, length, length-drop, take-append-drop,
}
use layeros.Text.{trim_space, is_blank, seen}
use layeros.Types.Events.{EventEnvelope}
use layeros.EventStore.{EventStore, split_retained, dedupe_from, dedupe_events, load_events}

-- No event has the identifier of an earlier one, or one of `keys`; events with a blank one are free.
pub data Distinct : List String → List EventEnvelope → Type 0 where
  end : {keys : List String} → Distinct keys []
  unnamed :
      {keys : List String} (e : EventEnvelope) {es : List EventEnvelope}
      → is_blank e.event_id ≡ true
      → Distinct keys es
      → Distinct keys (e ∷ es)
  named :
      {keys : List String} (e : EventEnvelope) {es : List EventEnvelope}
      → is_blank e.event_id ≡ false
      → seen (trim_space e.event_id) keys ≡ false
      → Distinct (trim_space e.event_id ∷ keys) es
      → Distinct keys (e ∷ es)

pub dedupe_from-Distinct :
    (keys : List String) (l : List EventEnvelope) → Distinct keys (dedupe_from keys l)
unfolding dedupe_from
dedupe_from-Distinct keys [] = end
dedupe_from-Distinct keys (e ∷ es) = elim (Bool-cases (is_blank e.event_id)) [
  | inl blank ↦ rw blank (unnamed e blank (dedupe_from-Distinct keys es))
  | inr word ↦ elim (Bool-cases (seen (trim_space e.event_id) keys)) [
    | inl old ↦ rw (word, old) (dedupe_from-Distinct keys es)
    | inr new ↦
        rw (word, new) (named e word new (dedupe_from-Distinct (trim_space e.event_id ∷ keys) es))
  ]
]

dedupe_from_of_Distinct :
    {keys : List String} {l : List EventEnvelope} → Distinct keys l → dedupe_from keys l ≡ l
unfolding dedupe_from
dedupe_from_of_Distinct end = refl
dedupe_from_of_Distinct (unnamed e blank d) = rw blank (ap (◌∷◌ e) (dedupe_from_of_Distinct d))
dedupe_from_of_Distinct (named e word new d) =
    rw (word, new) (ap (◌∷◌ e) (dedupe_from_of_Distinct d))

-- The split keeps every event in order, the older ones first, and what it retains is within a limit
-- that is not 0.
pub split_retained_parts :
    (l : List EventEnvelope) (limit : ℕ)
    → let (recent, archive) = split_retained l limit in
      (archive ++ recent ≡ l) × ((limit ≡ 0) ⊎ (length recent ≤ limit))
unfolding split_retained
split_retained_parts l limit = elim (Bool-cases (eqb limit 0 || leb (length l) limit)) [
  | inl keep ↦ rw keep (refl, ground arith)
  | inr cut ↦
      rw cut
        (take-append-drop (length l - limit) l, ground (arith, length-drop (length l - limit) l))
]

-- A log that was saved with nothing waiting for the archive is what a start under the same limit
-- loads: the same events, the same limit, and the same number of archived events.
pub load_events-save :
    (s : EventStore)
    → Distinct [] s.items
    → (s.limit ≡ 0) ⊎ (length s.items ≤ s.limit)
    → s.pending_archive ≡ []
    → load_events s.items s.archived_count s.limit ≡ s
unfolding load_events
load_events-save s d fits none_pending =
    let same : dedupe_events s.items ≡ s.items = dedupe_from_of_Distinct d in
    let keep : (eqb s.limit 0 || leb (length s.items) s.limit) ≡ true = ground arith in
    rw same (rw keep (ground arith))
