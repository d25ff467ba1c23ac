-- ===== src/Runtime/Delivery/Refined.antt =====
-- What CreateRelease, whatever it answers, makes of the log and its archive.
use layeros.Base.{String, List, reject_if, refl}
use layeros.Types.Vocabulary.{has_none, items}
use layeros.Types.Delivery.{ReleasePacket}
use layeros.Types.Events.{EventEnvelope}
use layeros.Stores.Delivery.{create_release_packet}
use layeros.Env.{Env, Domain}
use layeros.EventStore.History.{Refines}
use layeros.State.{Service, Saved}
use layeros.Runtime.{finish, no_more, restored_events}
use layeros.Runtime.Logged.Refined.{After, Steps-After, checked-After, finish-Steps}
use layeros.Runtime.Delivery.{
  check_refs, filled_release, undo_release, create_release, with_releases,
}
use layeros.Runtime.Delivery.Approved.{release_event}

-- Where the archive's file and the log stand for a history before, they do so after CreateRelease, whatever
-- stage of it failed and whatever persistLocked had written by then: for that history followed by the
-- event of the release where the method answers no error, for the history as it was where it answers one,
-- and the log counts as many events. The file may hold further events, among which those are in order.
pub create_release-After :
    (encode : (d : Domain) → Saved d → String) (env : Env) (raw : ReleasePacket) (s : Service)
    (before : List EventEnvelope)
    → Refines before s.disk.archive s.events
    → After before
        (release_event env (filled_release env.now raw))
        (create_release encode env raw s)
unfolding create_release
create_release-After encode env raw s before held =
    let item = filled_release env.now raw in
    let event = release_event env item in
    checked-After before event
      (reject_if (has_none item.approval_refs) "release approval_refs must not be empty") s _ held
      (λ _ _.
        checked-After before event
          (check_refs item.work_item_id s.approvals (items item.approval_refs)) s _ held
          (λ _ _.
            checked-After before event (create_release_packet item s.releases) s _ held
              (λ releases _.
                let t = with_releases item releases s in
                let undo_all = λ (v : Service). restored_events env s (undo_release s v) in
                Steps-After before event t
                  (finish encode env event no_more (undo_release s) undo_all t) held
                  (finish-Steps encode env event (undo_release s) undo_all t before (λ v old. refl)
                    (λ v. refl)))))
