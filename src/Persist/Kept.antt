-- ===== src/Persist/Kept.antt =====
-- What persistLocked may change in memory: the room, by the audits' items, the queue of the
-- archive, and the marks.
use layeros.Base.{
  String, Bool, ◌≡◌, refl, sym, ap, ◌∙◌, inl, inr, Option, none, some, true, false, Bool-cases,
}
use layeros.Env.{Domain, Env}
use layeros.EventStore.{count_events}
use layeros.Types.Review.{ReviewRoom}
use layeros.Review.Sync.{sync_audit_room}
use layeros.State.{Service, Saved}
use layeros.Persist.{
  persist_domains, Outcome, and_then, save_all, any_dirty, mark_persisted, persist_flagged,
  persist_snapshot, persist_locked, synced, is_dirty, set_room, leased,
}
use layeros.Persist.Files.{Written}
use layeros.Persist.Loop.{save_all-Written}

pub record Kept (s t : Service) : Type 0 where
  pub same :
      t ≡ record s { room = t.room; events = t.events; persisted = t.persisted; disk = t.disk }
  pub items : t.events.items ≡ s.events.items
  pub counted : count_events t.events ≡ count_events s.events

pub Kept-refl : (s : Service) → Kept s s
Kept-refl s = record { same = refl; items = refl; counted = refl }

pub Kept-trans : (s t u : Service) → Kept s t → Kept t u → Kept s u
Kept-trans s t u h k = record {
  same =
      k.same
      ∙ ap
          (λ (x : Service). record x {
            room = u.room;
            events = u.events;
            persisted = u.persisted;
            disk = u.disk;
          })
          h.same;
  items = k.items ∙ h.items;
  counted = k.counted ∙ h.counted;
}

set_room-Kept : (env : Env) (s : Service) (r : ReviewRoom × Bool) → Kept s (set_room env s r)
set_room-Kept env s (room, true) = record { same = refl; items = refl; counted = refl }
set_room-Kept env s (room, false) = Kept-refl s

set_room-marks :
    (env : Env) (s : Service) (r : ReviewRoom × Bool) → (set_room env s r).persisted ≡ s.persisted
set_room-marks env s (room, true) = refl
set_room-marks env s (room, false) = refl

module _ (encode : (d : Domain) → Saved d → String) (env : Env) where
  -- writes, and then marks or not
  Written-Kept :
      (s t : Service) (marks : Domain → String)
      → Written s t
      → Kept s (record t { persisted = marks })
  Written-Kept s t marks h = record {
    same =
        ap (λ (x : Service). record x { persisted = marks }) h.same
        ∙ ap
            (λ (r : ReviewRoom). record s {
              room = r;
              events = t.events;
              persisted = marks;
              disk = t.disk;
            })
            (sym (ap (λ (x : Service). x.room) h.same));
    items = h.kept;
    counted = h.counted;
  }

  marked-Kept :
      (s : Service) (r : Outcome) → Written s r.0 → Kept s (and_then r (mark_persisted encode s)).0
  marked-Kept s (t, none) h = Written-Kept s t _ h
  marked-Kept s (t, some e) h = Written-Kept s t t.persisted h

  flagged-Kept :
      (flags : Domain → Bool) (s : Service) → Kept s (persist_flagged encode env flags s).0
  unfolding persist_flagged
  flagged-Kept flags s = elim (Bool-cases (any_dirty flags persist_domains)) [
    | inl on ↦ rw on (
        marked-Kept s (save_all encode env flags persist_domains s)
          (save_all-Written encode env flags persist_domains s))
    | inr off ↦ rw off (Kept-refl s)
  ]

  leased-Kept :
      (lease : Option String) (s : Service) (f : Service → Outcome)
      → Kept s (f s).0
      → Kept s (leased lease s f).0
  leased-Kept none s f h = h
  leased-Kept (some e) s f h = Kept-refl s

  pub persist_locked-Kept : (s : Service) → Kept s (persist_locked encode env s).0
  unfolding persist_locked persist_snapshot synced
  persist_locked-Kept s =
      leased-Kept env.lease_error s (λ t. persist_snapshot encode env (synced env t))
        (Kept-trans s (synced env s) (persist_snapshot encode env (synced env s)).0
          (set_room-Kept env s (sync_audit_room env s.room))
          (flagged-Kept (λ d. is_dirty encode d (synced env s)) (synced env s)))

  marked-room :
      (s : Service) (r : Outcome)
      → Written s r.0
      → (and_then r (mark_persisted encode s)).0.room ≡ s.room
  marked-room s (t, none) h = ap (λ (x : Service). x.room) h.same
  marked-room s (t, some e) h = ap (λ (x : Service). x.room) h.same

  flagged-room :
      (flags : Domain → Bool) (s : Service) → (persist_flagged encode env flags s).0.room ≡ s.room
  unfolding persist_flagged
  flagged-room flags s = elim (Bool-cases (any_dirty flags persist_domains)) [
    | inl on ↦ rw on (
        marked-room s (save_all encode env flags persist_domains s)
          (save_all-Written encode env flags persist_domains s))
    | inr off ↦ rw off refl
  ]

  -- the loop leaves the room in memory as it was
  pub persist_snapshot-room : (s : Service) → (persist_snapshot encode env s).0.room ≡ s.room
  unfolding persist_snapshot
  persist_snapshot-room s = flagged-room (λ d. is_dirty encode d s) s

  -- an error leaves the marks as they were
  marked-marks :
      (s : Service) (r : Outcome) (e : String)
      → Written s r.0
      → (and_then r (mark_persisted encode s)).1 ≡ some e
      → (and_then r (mark_persisted encode s)).0.persisted ≡ s.persisted
  marked-marks s (t, none) e h p = cc
  marked-marks s (t, some x) e h p = ap (λ (y : Service). y.persisted) h.same

  flagged-marks :
      (flags : Domain → Bool) (s : Service) (e : String)
      → (persist_flagged encode env flags s).1 ≡ some e
      → (persist_flagged encode env flags s).0.persisted ≡ s.persisted
  unfolding persist_flagged
  flagged-marks flags s e = elim (Bool-cases (any_dirty flags persist_domains)) [
    | inl on ↦ rw on (
        marked-marks s (save_all encode env flags persist_domains s) e
          (save_all-Written encode env flags persist_domains s))
    | inr off ↦ rw off (λ h. refl)
  ]

  leased-marks :
      (lease : Option String) (s : Service) (f : Service → Outcome) (e : String)
      → ((f s).1 ≡ some e → (f s).0.persisted ≡ s.persisted)
      → (leased lease s f).1 ≡ some e
      → (leased lease s f).0.persisted ≡ s.persisted
  leased-marks none s f e h p = h p
  leased-marks (some x) s f e h p = refl

  pub persist_locked-marks :
      (s : Service) (e : String)
      → (persist_locked encode env s).1 ≡ some e
      → (persist_locked encode env s).0.persisted ≡ s.persisted
  unfolding persist_locked persist_snapshot synced
  persist_locked-marks s e =
      leased-marks env.lease_error s (λ t. persist_snapshot encode env (synced env t)) e
        (λ h.
          flagged-marks (λ d. is_dirty encode d (synced env s)) (synced env s) e h
          ∙ set_room-marks env s (sync_audit_room env s.room))
