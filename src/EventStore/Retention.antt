-- ===== src/EventStore/Retention.antt =====
-- The log keeps every event, in order, and keeps to its limit in memory.
use layeros.Base.{
  ◌+◌, ◌-◌, ◌≤◌, ◌<◌, ◌≡◌, refl, ap, sym, ◌∙◌, [], ◌∷◌, ◌++◌, ok, arith, Bool-cases, inl, inr, ltb,
  ◌&&◌, length, length-append, length-take, length-drop, take, take-append-drop,
}
use mathlib.Core.List.{append_assoc}
use layeros.Types.Events.{EventEnvelope}
use layeros.EventStore.{
  EventStore, event_list, count_events, retain, append_event, mark_archive_persisted,
}

event_list-retain : (s : EventStore) → event_list (retain s) ≡ event_list s
unfolding event_list retain
event_list-retain s = elim (Bool-cases (ltb 0 s.limit && ltb s.limit (length s.items))) [
  | inl e ↦ rw e (
      append_assoc s.pending_archive _ _
      ∙ ap (λ l. s.pending_archive ++ l) (take-append-drop (length s.items - s.limit) s.items))
  | inr e ↦ rw e
]

limit-retain : (s : EventStore) → (retain s).limit ≡ s.limit
unfolding retain
limit-retain s = ground arith

-- The store behind an append: the event passed its check, and only the limit moved events.
pub append_event-eq-ok :
    (e : EventEnvelope) (s : EventStore) {t : EventStore}
    → append_event e s ≡ ok t
    → t ≡ retain (record s { items = s.items ++ e ∷ [] })
unfolding append_event
append_event-eq-ok e s h = ground arith

event_list-snoc :
    (e : EventEnvelope) (s : EventStore)
    → event_list (record s { items = s.items ++ e ∷ [] }) ≡ event_list s ++ e ∷ []
unfolding event_list
event_list-snoc e s = sym (append_assoc s.pending_archive s.items (e ∷ []))

-- An append that succeeds puts the event behind all that the store held in memory: whatever the
-- retention limit, no event is lost, doubled or moved past another.
pub event_list-append :
    (e : EventEnvelope) (s : EventStore) {t : EventStore}
    → append_event e s ≡ ok t
    → event_list t ≡ event_list s ++ e ∷ []
event_list-append e s h =
    ap event_list (append_event-eq-ok e s h) ∙ event_list-retain _ ∙ event_list-snoc e s

length-retain-le : (s : EventStore) → 0 < s.limit → length (retain s).items ≤ s.limit
unfolding retain
length-retain-le s h = ground (arith, length-drop (length s.items - s.limit) s.items)

-- With a retention limit, an append leaves no more events in memory than the limit allows, and the
-- limit as it was.
pub append_event_bounded :
    (e : EventEnvelope) (s : EventStore) {t : EventStore}
    → append_event e s ≡ ok t
    → 0 < s.limit
    → (length t.items ≤ s.limit) × (t.limit ≡ s.limit)
append_event_bounded e s h pos =
    let same = append_event-eq-ok e s h in
    let s' : EventStore = record s { items = s.items ++ e ∷ [] } in
    rw same (length-retain-le s' pos, limit-retain s')

count-retain : (s : EventStore) → count_events (retain s) ≡ count_events s
unfolding count_events retain
count-retain s = ground (
  arith,
  length-append s.pending_archive (take (length s.items - s.limit) s.items),
  length-take (length s.items - s.limit) s.items,
  length-drop (length s.items - s.limit) s.items,
)

-- An append adds one to the number of events, those of the archive included; writing the queue to the
-- archive changes neither that number nor the events that stay.
pub count_events-append :
    (e : EventEnvelope) (s : EventStore) {t : EventStore}
    → append_event e s ≡ ok t
    → (count_events t ≡ count_events s + 1)
      × (count_events (mark_archive_persisted t) ≡ count_events s + 1)
      × (event_list (mark_archive_persisted t) ≡ t.items)
unfolding count_events mark_archive_persisted event_list
count_events-append e s {t = t} h =
    let grown : count_events t ≡ count_events s + 1 =
      ap count_events (append_event-eq-ok e s h)
      ∙ count-retain _
      ∙ omega (arith, length-append s.items (e ∷ [])) in
    (grown, omega arith, refl)
