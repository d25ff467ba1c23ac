-- ===== src/Persist/Files.antt =====
-- What a run of persistLocked leaves in memory and on disk.
use layeros.Base.{String, ◌≡◌, refl, arith, ap, ◌∙◌, Option, none, some}
use layeros.Env.{Domain, branch, continuity, event, review_room, Env}
use layeros.EventStore.{mark_archive_persisted, count_events}
use layeros.State.{Service, Saved, saved}
use layeros.Persist.{write, signature, save_plain, save_event, save_room, save_continuity, save}

-- `t` is `s` with other files, and with its queue of archived events written or not.
pub record Written (s t : Service) : Type 0 where
  pub same : t ≡ record s { disk = t.disk; events = t.events }
  pub kept : t.events.items ≡ s.events.items
  pub counted : count_events t.events ≡ count_events s.events

pub Written-refl : (s : Service) → Written s s
Written-refl s = record { same = refl; kept = refl; counted = refl }

pub Written-trans : {s t u : Service} → Written s t → Written t u → Written s u
Written-trans {s} {t} {u} h k = record {
  same = k.same ∙ ap (λ (x : Service). record x { disk = u.disk; events = u.events }) h.same;
  kept = k.kept ∙ h.kept;
  counted = k.counted ∙ h.counted;
}

-- Writing changes nothing of what any domain saves.
pub saved-Written : {s t : Service} (d : Domain) → Written s t → saved d t ≡ saved d s
saved-Written branch h = ap (λ (x : Service). x.branches) h.same
saved-Written event h = h.kept
saved-Written d h = ap (saved d) h.same

module _ (encode : (d : Domain) → Saved d → String) where
  plain-Written :
      (d : Domain) (e : Option String) (s : Service) → Written s (save_plain encode d e s).0
  plain-Written d (some e) s = Written-refl s
  plain-Written d none s = record { same = refl; kept = refl; counted = refl }

  event-Written : (e f : Option String) (s : Service) → Written s (save_event encode e f s).0
  unfolding mark_archive_persisted count_events
  event-Written (some e) f s = Written-refl s
  event-Written none (some f) s = record { same = refl; kept = refl; counted = refl }
  event-Written none none s = record { same = refl; kept = refl; counted = omega arith }

  room-Written : (e f : Option String) (s : Service) → Written s (save_room encode e f s).0
  room-Written (some e) f s = Written-refl s
  room-Written none (some f) s = record { same = refl; kept = refl; counted = refl }
  room-Written none none s = record { same = refl; kept = refl; counted = refl }

  continuity-Written :
      (e f : Option String) (s : Service) → Written s (save_continuity encode e f s).0
  continuity-Written (some e) f s = Written-refl s
  continuity-Written none f s = record { same = refl; kept = refl; counted = refl }

  pub save-Written : (env : Env) (d : Domain) (s : Service) → Written s (save encode env d s).0
  unfolding save
  save-Written env event s = event-Written _ _ s
  save-Written env review_room s = room-Written _ _ s
  save-Written env continuity s = continuity-Written _ _ s
  save-Written env d s = plain-Written d _ s

  plain-file :
      (d : Domain) (e : Option String) (s : Service)
      → (save_plain encode d e s).1 ≡ none
      → (save_plain encode d e s).0.disk.file ≡ write d (signature encode d s) s.disk.file
  plain-file d (some e) s h = cc
  plain-file d none s h = refl

  event-file :
      (e f : Option String) (s : Service)
      → (save_event encode e f s).1 ≡ none
      → (save_event encode e f s).0.disk.file ≡ write event (signature encode event s) s.disk.file
  event-file (some e) f s h = cc
  event-file none (some f) s h = cc
  event-file none none s h = refl

  room-file :
      (e f : Option String) (s : Service)
      → (save_room encode e f s).1 ≡ none
      → (save_room encode e f s).0.disk.file
        ≡ write review_room (signature encode review_room s) s.disk.file
  room-file (some e) f s h = cc
  room-file none (some f) s h = cc
  room-file none none s h = refl

  continuity-file :
      (e f : Option String) (s : Service)
      → (save_continuity encode e f s).1 ≡ none
      → (save_continuity encode e f s).0.disk.file
        ≡ write continuity (signature encode continuity s) s.disk.file
  continuity-file (some e) f s h = cc
  continuity-file none f s h = refl

  -- A save that succeeds writes the file of its domain, and no other.
  pub save-file :
      (env : Env) (d : Domain) (s : Service)
      → (save encode env d s).1 ≡ none
      → (save encode env d s).0.disk.file ≡ write d (signature encode d s) s.disk.file
  unfolding save
  save-file env event s h = event-file _ _ s h
  save-file env review_room s h = room-file _ _ s h
  save-file env continuity s h = continuity-file _ _ s h
  save-file env d s h = plain-file d _ s h
