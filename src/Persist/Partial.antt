-- ===== src/Persist/Partial.antt =====
-- What a run of persistLocked that fails leaves on disk.
use layeros.Base.{
  String, Bool, ◌≡◌, refl, ◌⊎◌, inl, inr, Option, none, some, List, [], ◌∷◌, Bool-cases,
  Option-cases,
}
use layeros.Env.{Domain, event, review_room, continuity, Env}
use layeros.State.{Service, Saved}
use layeros.Persist.{
  Outcome, and_then, signature, save_plain, save_event, save_room, save_continuity, save, save_all,
  any_dirty, mark_persisted, persist_domains, persist_flagged, persist_snapshot, is_dirty,
}
use layeros.Persist.Files.{save-Written}
use layeros.Persist.Loop.{Current, write-Current, Current-trans}

module _ (encode : (d : Domain) → Saved d → String) (env : Env) (flags : Domain → Bool) where
  plain-Current :
      (d e : Domain) (o : Option String) (s : Service)
      → Current encode env flags s (save_plain encode d o s).0 e
  plain-Current d e (some x) s = inl refl
  plain-Current d e none s =
      write-Current encode env flags d e s (save_plain encode d none s).0 refl

  event-Current :
      (e : Domain) (o p : Option String) (s : Service)
      → Current encode env flags s (save_event encode o p s).0 e
  event-Current e (some x) p s = inl refl
  event-Current e none (some x) s = inl refl
  event-Current e none none s =
      write-Current encode env flags event e s (save_event encode none none s).0 refl

  room-Current :
      (e : Domain) (o p : Option String) (s : Service)
      → Current encode env flags s (save_room encode o p s).0 e
  room-Current e (some x) p s = inl refl
  room-Current e none (some x) s =
      write-Current encode env flags review_room e s (save_room encode none (some x) s).0 refl
  room-Current e none none s =
      write-Current encode env flags review_room e s (save_room encode none none s).0 refl

  continuity-Current :
      (e : Domain) (o p : Option String) (s : Service)
      → Current encode env flags s (save_continuity encode o p s).0 e
  continuity-Current e (some x) p s = inl refl
  continuity-Current e none p s =
      write-Current encode env flags continuity e s (save_continuity encode none p s).0 refl

  save_any-Current :
      (d e : Domain) (s : Service) → Current encode env flags s (save encode env d s).0 e
  unfolding save
  save_any-Current event e s = event-Current e _ _ s
  save_any-Current review_room e s = room-Current e _ _ s
  save_any-Current continuity e s = continuity-Current e _ _ s
  save_any-Current d e s = plain-Current d e _ s

  save_all_any-Current :
      (ds : List Domain) (e : Domain) (s : Service)
      → Current encode env flags s (save_all encode env flags ds s).0 e
  unfolding save_all
  save_all_any-Current [] e s = inl refl
  save_all_any-Current (d ∷ ds) e s = elim (Bool-cases (flags d)) [
    | inl dirty ↦ elim (Option-cases (save encode env d s).1) [
      | inl done ↦
          rw (dirty, done)
            (Current-trans encode env flags s (save encode env d s).0
              (save_all encode env flags ds (save encode env d s).0).0 e
              (save-Written encode env d s) (save_any-Current d e s)
              (save_all_any-Current ds e (save encode env d s).0))
      | inr (x, failed) ↦ rw (dirty, failed) (save_any-Current d e s)
    ]
    | inr clean ↦ rw clean (save_all_any-Current ds e s)
  ]

  marked-Current :
      (s : Service) (r : Outcome) (e : Domain)
      → Current encode env flags s r.0 e
      → Current encode env flags s (and_then r (mark_persisted encode s)).0 e
  marked-Current s (t, none) e h = h
  marked-Current s (t, some x) e h = h

  flagged-Current :
      (e : Domain) (s : Service)
      → Current encode env flags s (persist_flagged encode env flags s).0 e
  unfolding persist_flagged
  flagged-Current e s = elim (Bool-cases (any_dirty flags persist_domains)) [
    | inl on ↦ rw on (
        marked-Current s (save_all encode env flags persist_domains s) e
          (save_all_any-Current persist_domains e s))
    | inr off ↦ rw off (inl refl)
  ]

-- Whatever the loop of persistLocked answers, and wherever it stopped, each file is as it was or holds
-- what the memory held.
pub persist_snapshot-files :
    (encode : (d : Domain) → Saved d → String) (env : Env) (s : Service) (d : Domain)
    → ((persist_snapshot encode env s).0.disk.file d ≡ s.disk.file d)
      ⊎ ((persist_snapshot encode env s).0.disk.file d ≡ signature encode d s)
unfolding persist_snapshot
persist_snapshot-files encode env s d = flagged-Current encode env (λ d. is_dirty encode d s) d s
