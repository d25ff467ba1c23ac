-- ===== src/Runtime/Verify/Rollback.antt =====
-- An error of the methods on preflights and verifications leaves the stores as they were.
use layeros.Base.{
  refl, inl, inr, ltb, String, ◌≡◌, refl, ap, Option, none, some, List, ok, err, not, ◌&&◌, ◌==◌,
}
use layeros.Text.{◌<>◌, trim_space, is_blank}
use layeros.Types.Control.{PreflightRecord, VerificationRecord}
use layeros.Types.Review.{ReviewRoomItem}
use layeros.Stores.Control.{create_preflight_record, create_verification_record}
use layeros.Review.Suggest.{suggestion_for_verification}
use layeros.Review.Evidence.{Resolving, auto_resolve_by_evidence}
use layeros.Env.{Env, Domain}
use layeros.State.{Service, Saved}
use layeros.Runtime.{restored_events}
use layeros.Runtime.Intact.{
  Intact, Intact-refl, Between, checked-Intact, finish_plain-error, finish_guarded-error,
  restore_events-same, Undoes,
}
use layeros.Runtime.Intact.Undone.{SameRoom, checked-undone, finish_guarded-undone}
use layeros.Runtime.Room.{keep_room, restored_room}
use layeros.Runtime.Room.Opened.{auto_open-Between, keep_room-Between}
use layeros.Runtime.Intact.Steps.{if-Between, if_outcome-Between, Between-refl}
use layeros.Runtime.Verify.{
  verified, kept_resolved, verified_room, verification_room, create_preflight, create_verification,
}

kept_resolved-Between :
    (env : Env) (s : Service) (o : Resolving) → Between s (kept_resolved env s o).0
unfolding kept_resolved
kept_resolved-Between env s none = record { same = refl }
kept_resolved-Between env s (some (err e)) = record { same = refl }
kept_resolved-Between env s (some (ok (room, n))) =
    if-Between (ltb 0 n) s (keep_room env room s) s (keep_room-Between env room s)
      (record { same = refl })

verified_room-Between :
    (env : Env) (item : VerificationRecord) (s : Service) (o : Option ReviewRoomItem)
    → Between s (verified_room env item s o).0
unfolding verified_room
verified_room-Between env item s (some suggestion) = auto_open-Between env suggestion s
verified_room-Between env item s none =
    let scope_evidence = "scope:" <> trim_space item.scope in
    let run =
      auto_resolve_by_evidence env s.room "verification.failed" scope_evidence
        (verified item scope_evidence) in
    if_outcome-Between (item.status == "passed" && not (is_blank item.scope)) s
      (kept_resolved env s run) (s, none) (kept_resolved-Between env s run) (Between-refl s)

pub verification_room-Between :
    (env : Env) (item : VerificationRecord) (s : Service)
    → Between s (verification_room env item s).0
unfolding verification_room
verification_room-Between env item s =
    verified_room-Between env item s (suggestion_for_verification env.now item)

module _ (encode : (d : Domain) → Saved d → String) (env : Env) (s : Service) (e : String) where
  undo_preflight-Undoes :
      (preflights : List PreflightRecord)
      → Undoes s
          (record s { preflights = preflights })
          (λ t. restored_events env s (record t { preflights = s.preflights }))
  undo_preflight-Undoes preflights v h = record {
    stores = ap (λ t. restored_events env s (record t { preflights = s.preflights })) h.same;
    evidence = restore_events-same env.event_retention s.events;
  }

  -- An error of CreatePreflight leaves every store in memory as it was.
  pub create_preflight-atomic :
      (models model : String) (item : PreflightRecord)
      → (create_preflight encode env models model item s).1 ≡ some e
      → Intact s (create_preflight encode env models model item s).0
  unfolding create_preflight
  create_preflight-atomic models model item =
      checked-Intact s (create_preflight_record _ s.preflights) _ e (λ preflights _.
        finish_plain-error encode env s (record s { preflights = preflights }) _
          (λ t. record t { preflights = s.preflights }) _ e (λ _. Intact-refl s)
          (undo_preflight-Undoes preflights))

  undo_verification-Undoes :
      (verifications : List VerificationRecord)
      → Undoes s
          (record s { verifications = verifications })
          (λ t.
            restored_room env s
              (restored_events env s (record t { verifications = s.verifications })))
  undo_verification-Undoes verifications v h = record {
    stores =
        ap
          (λ t.
            restored_room env s
              (restored_events env s (record t { verifications = s.verifications })))
          h.same;
    evidence = restore_events-same env.event_retention s.events;
  }

  -- An error of CreateVerification leaves every store in memory as it was.
  pub create_verification-atomic :
      (item : VerificationRecord)
      → (create_verification encode env item s).1 ≡ some e
      → Intact s (create_verification encode env item s).0
  unfolding create_verification
  create_verification-atomic item =
      checked-Intact s (create_verification_record item s.verifications) _ e (λ verifications _.
        finish_guarded-error encode env s (record s { verifications = verifications }) _
          (verification_room env item) (λ t. record t { verifications = s.verifications }) _ e
          (verification_room-Between env item) (λ _. Intact-refl s)
          (undo_verification-Undoes verifications))

  -- An error of CreateVerification leaves the room as it was, or its copy.
  pub create_verification-SameRoom :
      (item : VerificationRecord)
      → (create_verification encode env item s).1 ≡ some e
      → SameRoom env s (create_verification encode env item s).0
  unfolding create_verification
  create_verification-SameRoom item =
      checked-undone (SameRoom env s) (create_verification_record item s.verifications) s _ e
        (inl refl)
        (λ verifications _.
          finish_guarded-undone encode env (SameRoom env s) _ (verification_room env item)
            (λ t. record t { verifications = s.verifications }) _
            (record s { verifications = verifications }) e (inl refl) (λ v. inr refl))
