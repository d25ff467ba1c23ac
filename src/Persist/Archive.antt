-- ===== src/Persist/Archive.antt =====
-- What persistLocked does with the log and its archive are steps of the log's history.
use layeros.Base.{
  String, Bool, true, false, Option, none, some, List, [], ◌∷◌, inl, inr, Bool-cases,
}
use layeros.Env.{Domain, event, review_room, continuity, Env}
use layeros.EventStore.{EventStore}
use layeros.EventStore.History.{
  Log, History, archive_written, queue_written, Run, start, next, Run-trans,
}
use layeros.Types.Review.{ReviewRoom}
use layeros.Review.Sync.{sync_audit_room}
use layeros.State.{Service, Saved}
use layeros.Persist.{
  persist_domains, Outcome, and_then, save, save_all, any_dirty, mark_persisted, persist_flagged,
  persist_snapshot, persist_locked, is_dirty, synced, set_room, leased,
}

-- the log of a service, its archive on disk, and the state that the method at work took of it
abbrev pub log_of : EventStore → Service → Log
log_of old s = record { store = s.events; old = old; archive = s.disk.archive }

module _ (encode : (d : Domain) → Saved d → String) (env : Env) (old : EventStore)
    (h : History) where
  abbrev Runs : Service → Service → Type 0
  Runs s t = Run (log_of old s) h (log_of old t) h

  save_event-Run :
      (first second : Option String) (s : Service)
      → Runs s (layeros.Persist.save_event encode first second s).0
  save_event-Run (some e) second s = start
  save_event-Run none (some e) s = next start queue_written
  save_event-Run none none s = next start archive_written

  save_room-Run :
      (first second : Option String) (s : Service)
      → Runs s (layeros.Persist.save_room encode first second s).0
  save_room-Run (some e) second s = start
  save_room-Run none (some e) s = start
  save_room-Run none none s = start

  save_continuity-Run :
      (first second : Option String) (s : Service)
      → Runs s (layeros.Persist.save_continuity encode first second s).0
  save_continuity-Run (some e) second s = start
  save_continuity-Run none second s = start

  save_plain-Run :
      (d : Domain) (first : Option String) (s : Service)
      → Runs s (layeros.Persist.save_plain encode d first s).0
  save_plain-Run d (some e) s = start
  save_plain-Run d none s = start

  save-Run : (d : Domain) (s : Service) → Runs s (save encode env d s).0
  unfolding save
  save-Run event s = save_event-Run (env.save_error event) (env.second_error event) s
  save-Run review_room s =
      save_room-Run (env.save_error review_room) (env.second_error review_room) s
  save-Run continuity s =
      save_continuity-Run (env.save_error continuity) (env.second_error continuity) s
  save-Run d s = save_plain-Run d (env.save_error d) s

  and_then-Run :
      (s : Service) (r : Outcome) (f : Service → Outcome)
      → Runs s r.0
      → ((u : Service) → Runs u (f u).0)
      → Runs s (and_then r f).0
  and_then-Run s (u, none) f p q = Run-trans p (q u)
  and_then-Run s (u, some e) f p q = p

  save_all-Run :
      (flags : Domain → Bool) (ds : List Domain) (s : Service)
      → Runs s (save_all encode env flags ds s).0
  unfolding save_all
  save_all-Run flags [] s = start
  save_all-Run flags (d ∷ ds) s =
      let rest = save_all-Run flags ds in
      elim (Bool-cases (flags d)) [
        | inl dirty ↦ rw dirty (and_then-Run s (save encode env d s) _ (save-Run d s) rest)
        | inr clean ↦ rw clean (rest s)
      ]

  persist_flagged-Run :
      (flags : Domain → Bool) (s : Service) → Runs s (persist_flagged encode env flags s).0
  unfolding persist_flagged
  persist_flagged-Run flags s = elim (Bool-cases (any_dirty flags persist_domains)) [
    | inl on ↦ rw on (
        and_then-Run s (save_all encode env flags persist_domains s) _
          (save_all-Run flags persist_domains s) (λ u. start))
    | inr off ↦ rw off start
  ]

  set_room-Run : (s : Service) (r : ReviewRoom × Bool) → Runs s (set_room env s r)
  set_room-Run s (room, true) = start
  set_room-Run s (room, false) = start

  leased-Run :
      (lease : Option String) (s : Service) (f : Service → Outcome)
      → Runs s (f s).0
      → Runs s (leased lease s f).0
  leased-Run none s f p = p
  leased-Run (some e) s f p = start

  -- whatever persistLocked answers, it takes only steps that leave the history as it was
  pub persist_locked-Run : (s : Service) → Runs s (persist_locked encode env s).0
  unfolding persist_locked persist_snapshot synced
  persist_locked-Run s =
      leased-Run env.lease_error s (λ t. persist_snapshot encode env (synced env t))
        (Run-trans (set_room-Run s (sync_audit_room env s.room))
          (persist_flagged-Run (λ d. is_dirty encode d (synced env s)) (synced env s)))
