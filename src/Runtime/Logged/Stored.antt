-- ===== src/Runtime/Logged/Stored.antt =====
-- What a method of Service has written when it answers no error.
use mathlib.Core.Path.{subst}
use layeros.Base.{String, Bool, true, false, ◌≡◌, refl, sym, ◌∙◌, none, some, Option}
use layeros.Types.Review.{ReviewRoom}
use layeros.Types.Events.{EventEnvelope}
use layeros.Env.{Env, Domain}
use layeros.EventStore.{EventStore}
use layeros.State.{Service, Saved}
use layeros.Persist.{Outcome, persist_snapshot, persist_locked, synced, set_room, leased}
use layeros.Persist.Kept.{persist_snapshot-room}
use layeros.Persist.Success.{Coherent, Done, persist_snapshot-success}
use layeros.Review.Sync.{sync_audit_room}
use layeros.Runtime.{finish, no_more}
use layeros.Runtime.Logged.{finish-persisted}

-- `w` is saved: each file and each mark is what `w` holds, and its room is that of `u` with the audits.
pub record Stored (encode : (d : Domain) → Saved d → String) (env : Env) (u w : Service)
    : Type 0 where
  pub written : (d : Domain) → Done encode w d
  pub same_room : w.room ≡ (synced env u).room

set_room-Coherent :
    (env : Env) (s : Service) (r : ReviewRoom × Bool) → Coherent s → Coherent (set_room env s r)
set_room-Coherent env s (room, true) c = c
set_room-Coherent env s (room, false) c = c

leased-none :
    (lease : Option String) (s : Service) (f : Service → Outcome)
    → (leased lease s f).1 ≡ none
    → ((f s).1 ≡ none) × ((leased lease s f).0 ≡ (f s).0)
leased-none none s f h = (h, refl)
leased-none (some e) s f h = cc

pub persist_locked-Stored :
    (encode : (d : Domain) → Saved d → String) (env : Env) (u : Service)
    → Coherent u
    → (persist_locked encode env u).1 ≡ none
    → Stored encode env u (persist_locked encode env u).0
unfolding persist_locked synced
persist_locked-Stored encode env u c h =
    let run = λ (t : Service). persist_snapshot encode env (synced env t) in
    let (passed, same) = leased-none env.lease_error u run h in
    subst (Stored encode env u) (sym same) (record {
      written =
          persist_snapshot-success encode env (synced env u)
            (set_room-Coherent env u (sync_audit_room env u.room) c) passed;
      same_room = persist_snapshot-room encode env (synced env u);
    })

-- a method that does nothing more
pub finish-Stored :
    (encode : (d : Domain) → Saved d → String) (env : Env) (event : EventEnvelope)
    (undo undo_all : Service → Service) (t : Service)
    → Coherent t
    → (finish encode env event no_more undo undo_all t).1 ≡ none
    → Stored encode env t (finish encode env event no_more undo undo_all t).0
unfolding synced
finish-Stored encode env event undo undo_all t c h =
    let (es, appended, done, passed, wrote) =
      finish-persisted encode env event no_more undo undo_all t h in
    let u : Service = record t { events = es } in
    let stored = persist_locked-Stored encode env u c passed in
    subst (Stored encode env t) (sym wrote) (record {
      written = stored.written;
      same_room = stored.same_room ∙ rooms es (sync_audit_room env t.room);
    })
  where
    rooms :
        (es : EventStore) (r : ReviewRoom × Bool)
        → (set_room env (record t { events = es }) r).room ≡ (set_room env t r).room
    rooms es (room, true) = refl
    rooms es (room, false) = refl
