-- ===== src/EventStore/History.antt =====
-- The log as what it promises: a history to which events are only added, and from which a method that
-- fails takes back its own. The archive's file and the memory together hold the history.
use mathlib.Core.List.{Sublistᴰ, append_assoc}
use mathlib.Core.List.Sublistᴰ
use layeros.Base.{
  ℕ, String, ◌≡◌, sym, ap, ◌∙◌, List, [], ◌∷◌, ◌++◌, ok, err, arith, length, length-append,
}
use layeros.Types.Events.{EventEnvelope}
use layeros.EventStore.{
  EventStore, event_list, count_events, append_event, mark_archive_persisted, restore_events,
  retain,
}
use layeros.EventStore.Retention.{event_list-append, append_event-eq-ok}

-- the log in memory, the state of it that the method at work took at its beginning, and the archive's file
pub record Log : Type 0 where
  pub store : EventStore
  pub old : EventStore
  pub archive : List EventEnvelope

-- the accepted events, at the beginning of the method at work and now
pub record History : Type 0 where
  pub before : List EventEnvelope
  pub all : List EventEnvelope

-- What the methods of Service do with the log, and with the history that it stands for.
pub data Step (l : Log) (h : History) : Log → History → Type 0 where
  begun : Step l h (record l { old = l.store }) (record { before = h.all; all = h.all })
  appended :
      (e : EventEnvelope) {t : EventStore}
      → append_event e l.store ≡ ok t
      → Step l h (record l { store = t }) (record h { all = h.all ++ e ∷ [] })
  refused : (e : EventEnvelope) (m : String) → append_event e l.store ≡ err m → Step l h l h
  -- the queue was appended to the archive, and the file of the recent events written
  archive_written :
      Step l h
        (record l {
          archive = l.archive ++ l.store.pending_archive;
          store = mark_archive_persisted l.store;
        })
        h
  -- the queue was appended to the archive, and the file of the recent events was not written
  queue_written : Step l h (record l { archive = l.archive ++ l.store.pending_archive }) h
  -- the state of the beginning is put back, whatever was appended and written since; the limit that the
  -- environment gives stands for none
  rolled_back :
      (limit : ℕ)
      → Step l h (record l { store = restore_events limit l.old }) (record h { all = h.before })

pub data Run (l : Log) (h : History) : Log → History → Type 0 where
  start : Run l h l h
  next : {m n : Log} {j k : History} → Run l h m j → Step m j n k → Run l h n k

pub Run-trans :
    {l m : Log} {h j : History} {n : Log} {k : History} → Run l h m j → Run m j n k → Run l h n k
Run-trans p start = p
Run-trans p (next q step) = next (Run-trans p q) step

-- A history is a part that left the memory, and then what the memory holds; that part is in the archive,
-- in order, and is what the log counts of it.
pub record Refines (history archive : List EventEnvelope) (s : EventStore) : Type 0 where
  pub left : List EventEnvelope
  pub parts : history ≡ left ++ event_list s
  pub counted : length left ≡ s.archived_count
  pub in_archive : Sublistᴰ left archive

-- both states of the log stand for their histories
pub record Holds (l : Log) (h : History) : Type 0 where
  pub now : Refines h.all l.archive l.store
  pub earlier : Refines h.before l.archive l.old

Sublist-longer : (xs ys zs : List EventEnvelope) → Sublistᴰ xs ys → Sublistᴰ xs (ys ++ zs)
Sublist-longer _ _ [] Sublistᴰ.slnil = Sublistᴰ.slnil
Sublist-longer _ _ (z ∷ zs) Sublistᴰ.slnil = Sublistᴰ.cons (Sublist-longer [] [] zs Sublistᴰ.slnil)
Sublist-longer xs _ zs (Sublistᴰ.cons {l₂ = ys} s) = Sublistᴰ.cons (Sublist-longer xs ys zs s)
Sublist-longer _ _ zs (Sublistᴰ.cons-cons {l₁ = xs} {l₂ = ys} p s) =
    Sublistᴰ.cons-cons p (Sublist-longer xs ys zs s)

archived_count-retain : (s : EventStore) → (retain s).archived_count ≡ s.archived_count
unfolding retain
archived_count-retain s = ground arith

archived_count-append :
    (e : EventEnvelope) (s : EventStore) {t : EventStore}
    → append_event e s ≡ ok t
    → t.archived_count ≡ s.archived_count
archived_count-append e s h =
    ap (λ (x : EventStore). x.archived_count) (append_event-eq-ok e s h)
    ∙ archived_count-retain (record s { items = s.items ++ e ∷ [] })

-- a longer archive stands for the same
Refines-longer :
    (h archive more : List EventEnvelope) (s : EventStore)
    → Refines h archive s
    → Refines h (archive ++ more) s
Refines-longer h archive more s r = record {
  left = r.left;
  parts = r.parts;
  counted = r.counted;
  in_archive = Sublist-longer r.left archive more r.in_archive;
}

Refines-append :
    (h archive : List EventEnvelope) (e : EventEnvelope) (s : EventStore) {t : EventStore}
    → append_event e s ≡ ok t
    → Refines h archive s
    → Refines (h ++ e ∷ []) archive t
Refines-append h archive e s p r = record {
  left = r.left;
  parts =
      ap (λ l. l ++ e ∷ []) r.parts
      ∙ append_assoc r.left (event_list s) (e ∷ [])
      ∙ ap (λ l. r.left ++ l) (sym (event_list-append e s p));
  counted = r.counted ∙ sym (archived_count-append e s p);
  in_archive = r.in_archive;
}

Refines-written :
    (h archive : List EventEnvelope) (s : EventStore)
    → Refines h archive s
    → Refines h (archive ++ s.pending_archive) (mark_archive_persisted s)
unfolding mark_archive_persisted event_list
Refines-written h archive s r = record {
  left = r.left ++ s.pending_archive;
  parts = r.parts ∙ sym (append_assoc r.left s.pending_archive s.items);
  counted = omega (arith, length-append r.left s.pending_archive, r.counted);
  in_archive = Sublistᴰ.append r.in_archive (Sublistᴰ.refl s.pending_archive);
}

Refines-restored :
    (h archive : List EventEnvelope) (limit : ℕ) (s : EventStore)
    → Refines h archive s
    → Refines h archive (restore_events limit s)
unfolding restore_events event_list
Refines-restored h archive limit s r = record {
  left = r.left;
  parts = r.parts;
  counted = r.counted;
  in_archive = r.in_archive;
}

Step-Holds : (l m : Log) (h k : History) → Step l h m k → Holds l h → Holds m k
Step-Holds l _ h _ begun r = record { now = r.now; earlier = r.now }
Step-Holds l _ h _ (appended e p) r = record {
  now = Refines-append h.all l.archive e l.store p r.now;
  earlier = r.earlier;
}
Step-Holds l _ h _ (refused e m p) r = r
Step-Holds l _ h _ archive_written r = record {
  now = Refines-written h.all l.archive l.store r.now;
  earlier = Refines-longer h.before l.archive l.store.pending_archive l.old r.earlier;
}
Step-Holds l _ h _ queue_written r = record {
  now = Refines-longer h.all l.archive l.store.pending_archive l.store r.now;
  earlier = Refines-longer h.before l.archive l.store.pending_archive l.old r.earlier;
}
Step-Holds l _ h _ (rolled_back limit) r = record {
  now = Refines-restored h.before l.archive limit l.old r.earlier;
  earlier = r.earlier;
}

Run-Holds : (l : Log) (h : History) (m : Log) (k : History) → Run l h m k → Holds l h → Holds m k
Run-Holds l h _ _ start r = r
Run-Holds l h m k (next {m = n} {j = j} run step) r =
    Step-Holds n m j k step (Run-Holds l h n j run r)

pub count-Refines :
    (h archive : List EventEnvelope) (s : EventStore)
    → Refines h archive s
    → count_events s ≡ length h
unfolding count_events event_list
count-Refines h archive s r = omega (
  arith,
  ap (λ (l : List EventEnvelope). length l) r.parts,
  length-append r.left (s.pending_archive ++ s.items),
  length-append s.pending_archive s.items,
  r.counted,
)

-- Where the log, and the state of it that the method at work took at its beginning, stand for their
-- histories, after any steps of the log (the beginning of a method, appends that pass or fail, archive
-- writes that are marked or not, rollbacks to the beginning of the method), its history is that of the
-- accepted events that no rollback took back, in order: what left the memory, which the archive's file
-- holds in order, perhaps among others, and whose number the log counts, and then what the memory holds.
-- The number of events is its length.
pub Run-Refines :
    (l m : Log) (h k : History)
    → Holds l h
    → Run l h m k
    → Refines k.all m.archive m.store × (count_events m.store ≡ length k.all)
Run-Refines l m h k held run =
    let after = (Run-Holds l h m k run held).now in
    (after, count-Refines k.all m.archive m.store after)
