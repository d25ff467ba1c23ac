-- ===== src/EventStore.antt =====
-- internal/runtime/event.go: the event log in memory, and what of it waits for the archive file.
-- `limit` is the retention: 0 keeps every event.
pub mod Retention
pub mod Reload
pub mod History
use layeros.Base.{
  ℕ, ◌+◌, ◌-◌, String, ◌||◌, ◌&&◌, List, [], ◌∷◌, ◌++◌, Result, ok, ◌>>=◌, ◌>>◌, if◌then◌else◌, ltb,
  leb, eqb, length, take, drop, some,
}
use layeros.Text.{◌<>◌, trim_space, is_blank, seen}
use layeros.Json.{Fields}
use layeros.Types.Vocabulary.{Time}
use layeros.Types.Events.{EventEnvelope, validate_event_envelope}

pub record EventStore : Type 0 where
  pub items : List EventEnvelope
  pub pending_archive : List EventEnvelope
  pub archived_count : ℕ
  pub limit : ℕ

-- `list`: what is in memory, oldest first
unfoldable pub event_list : EventStore → List EventEnvelope
event_list s = s.pending_archive ++ s.items

unfoldable pub count_events : EventStore → ℕ
count_events s = s.archived_count + length s.pending_archive + length s.items

-- the end of `append`: what passes the limit goes to the archive's queue
unfoldable pub retain : EventStore → EventStore
retain s =
    if ltb 0 s.limit && ltb s.limit (length s.items)
    then record s {
      pending_archive = s.pending_archive ++ take (length s.items - s.limit) s.items;
      items = drop (length s.items - s.limit) s.items;
    }
    else s

unfoldable pub append_event : EventEnvelope → EventStore → Result EventStore
append_event item s = do
  validate_event_envelope item
  ok (retain (record s { items = s.items ++ item ∷ [] }))

unfoldable pub mark_archive_persisted : EventStore → EventStore
mark_archive_persisted s = record s {
  archived_count = s.archived_count + length s.pending_archive;
  pending_archive = [];
}

-- `newEventStoreFromState(s.event.state())`; the limit that the environment gives stands for none
unfoldable pub restore_events : ℕ → EventStore → EventStore
restore_events env_limit state = record state {
  limit = if eqb state.limit 0 then env_limit else state.limit;
}

-- `splitRetainedEvents`: the recent events, and the older ones
unfoldable pub split_retained : List EventEnvelope → ℕ → List EventEnvelope × List EventEnvelope
split_retained evidence limit =
    if eqb limit 0 || leb (length evidence) limit
    then (evidence, [])
    else (drop (length evidence - limit) evidence, take (length evidence - limit) evidence)

-- the loop of `dedupeEvents`, with the keys that it has met
unfoldable pub dedupe_from : List String → List EventEnvelope → List EventEnvelope
dedupe_from keys [] = []
dedupe_from keys (item ∷ rest) =
    let key = trim_space item.event_id in
    let kept = dedupe_from keys rest in
    let more = dedupe_from (key ∷ keys) rest in
    if is_blank item.event_id then item ∷ kept else if seen key keys then kept else item ∷ more

unfoldable pub dedupe_events : List EventEnvelope → List EventEnvelope
unfolding dedupe_from
dedupe_events evidence = dedupe_from [] evidence

unfoldable pub load_events : List EventEnvelope → ℕ → ℕ → EventStore
unfolding split_retained dedupe_events
load_events items archived_count limit = record {
  items = (split_retained (dedupe_events items) limit).0;
  pending_archive = [];
  archived_count = archived_count;
  limit = limit;
}

unfoldable pub load_evidence : List EventEnvelope → ℕ → EventStore
unfolding split_retained dedupe_events
load_evidence evidence limit =
    let (recent, archived) = split_retained (dedupe_events evidence) limit in
    record { items = recent; pending_archive = archived; archived_count = 0; limit = limit }

-- `newEvent`: `stamp` is the first reading of the clock as the identifier formats it, `at` the second
unfoldable pub new_event :
    String → Time → String → String → String → String → String → Fields → EventEnvelope
new_event stamp at kind actor surface work_item_id stage event_data = record {
  event_id = work_item_id <> ":" <> kind <> ":" <> stamp;
  kind = kind;
  actor = actor;
  surface = surface;
  work_item_id = work_item_id;
  stage = stage;
  timestamp = at;
  event_data = some event_data;
}
