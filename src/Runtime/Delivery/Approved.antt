-- ===== src/Runtime/Delivery/Approved.antt =====
-- What CreateRelease has checked of the approvals, and what it leaves.
use mathlib.Core.Path.{subst}
use layeros.Base.{
  String, Bool, true, false, not, ◌≡◌, refl, sym, ap, ◌∙◌, Option, none, some, List, [], ◌∷◌, ◌++◌,
  ok, reject_if, reject_if-eq-ok, >>=-eq-ok, All, arith, ◌==◌, eq_iff,
}
use layeros.Types.Vocabulary.{has_none, items}
use layeros.Types.Delivery.{ApprovalItem, ReleasePacket, validate_release_packet}
use layeros.Types.Events.{EventEnvelope}
use layeros.Json.{texts}
use layeros.Types.Review.{ReviewRoom}
use layeros.Review.Sync.{sync_audit_room}
use layeros.Stores.Loop.{create_checked-eq-ok}
use layeros.Stores.Delivery.{get_approval, create_release_packet}
use layeros.Env.{Env, Domain}
use layeros.State.{Service, Saved}
use layeros.Runtime.{service_event}
use layeros.Persist.{synced, set_room}
use layeros.Persist.Success.{Coherent}
use layeros.Runtime.Logged.Stored.{Stored, finish-Stored}
use layeros.Runtime.Logged.{Logged, finish-Logged, checked-none, Logged-move}
use layeros.Runtime.Delivery.{
  approved_for, check_refs, filled_release, create_release, with_releases,
}

-- the approval behind a reference: approved, and for the work item
pub record Approved (work_item_id : String) (approvals : List ApprovalItem) (ref : String)
    : Type 0 where
  pub approval : ApprovalItem
  pub found : get_approval ref approvals ≡ some approval
  pub status_approved : approval.status ≡ "approved"
  pub same_work : approval.work_item_id ≡ work_item_id

approved_for-Approved :
    (work_item_id : String) (approvals : List ApprovalItem) (ref : String) (o : Option ApprovalItem)
    (v : Unit {0})
    → get_approval ref approvals ≡ o
    → approved_for work_item_id o ≡ ok v
    → Approved work_item_id approvals ref
unfolding approved_for
approved_for-Approved w approvals ref none v p h = cc
approved_for-Approved w approvals ref (some a) v p h =
    let (is_approved, later) =
      reject_if-eq-ok (not (a.status == "approved")) _
        (reject_if (not (a.work_item_id == w)) "release approval_ref work_item mismatch") h in
    record {
      approval = a;
      found = p;
      status_approved = (eq_iff a.status "approved").0 (ground (arith, is_approved));
      same_work = (eq_iff a.work_item_id w).0 (ground (arith, later));
    }

check_refs-Approved :
    (work_item_id : String) (approvals : List ApprovalItem) (refs : List String) (v : Unit {0})
    → check_refs work_item_id approvals refs ≡ ok v
    → All (Approved work_item_id approvals) refs
unfolding check_refs
check_refs-Approved w approvals [] v h = tt
check_refs-Approved w approvals (ref ∷ refs) v h =
    let (u, first, later) =
      >>=-eq-ok (approved_for w (get_approval ref approvals)) (λ _. check_refs w approvals refs)
        h in
    (
      approved_for-Approved w approvals ref (get_approval ref approvals) u refl first,
      check_refs-Approved w approvals refs v later,
    )

-- the audits read the room alone
with_releases-Stored :
    (encode : (d : Domain) → Saved d → String) (env : Env) (item : ReleasePacket)
    (releases : List ReleasePacket) (s w : Service)
    → Stored encode env (with_releases item releases s) w
    → Stored encode env s w
unfolding synced
with_releases-Stored encode env item releases s w h = record {
  written = h.written;
  same_room = h.same_room ∙ rooms (sync_audit_room env s.room);
}
  where
    rooms :
        (r : ReviewRoom × Bool)
        → (set_room env (with_releases item releases s) r).room ≡ (set_room env s r).room
    rooms (room, true) = refl
    rooms (room, false) = refl

abbrev pub release_event : Env → ReleasePacket → EventEnvelope
release_event env item =
    service_event env "release.created" "api" item.work_item_id "release"
      (texts (("target", item.target) ∷ ("channel", item.channel) ∷ []))

-- The service after a release `item` was created from `s`, and saved.
pub record Released (encode : (d : Domain) → Saved d → String) (env : Env) (item : ReleasePacket)
    (s w : Service) : Type 0 where
  pub refs_given : has_none item.approval_refs ≡ false
  pub refs_approved : All (Approved item.work_item_id s.approvals) (items item.approval_refs)
  pub item_valid : validate_release_packet item ≡ ok tt
  pub logged : Logged (release_event env item) (with_releases item (s.releases ++ item ∷ []) s) w
  pub stored : Stored encode env s w

-- Where each file holds what was last marked as persisted, a release that CreateRelease makes without an
-- error has at least one approval, all its approvals are approved and for its work item; it passes its
-- check, it is appended to the releases and its event to the log, the time of the last release is set, the
-- room is as it was but for the items of the audits, the other stores are as they were, and of every domain
-- the file and the mark are what the memory then holds.
pub create_release-Released :
    (encode : (d : Domain) → Saved d → String) (env : Env) (raw : ReleasePacket) (s : Service)
    → Coherent s
    → (create_release encode env raw s).1 ≡ none
    → Released encode env (filled_release env.now raw) s (create_release encode env raw s).0
unfolding create_release create_release_packet
create_release-Released encode env raw s coherent h =
    let item = filled_release env.now raw in
    let (_, given, h1, e1) =
      checked-none
        (reject_if (has_none item.approval_refs) "release approval_refs must not be empty") s _ h in
    let (v, refs, h2, e2) =
      checked-none (check_refs item.work_item_id s.approvals (items item.approval_refs)) s _ h1 in
    let (releases, made, h3, e3) = checked-none (create_release_packet item s.releases) s _ h2 in
    let (valid, appended) = create_checked-eq-ok validate_release_packet item s.releases made in
    record {
      refs_given = ground (arith, given);
      refs_approved =
          check_refs-Approved item.work_item_id s.approvals (items item.approval_refs) v refs;
      item_valid = valid;
      logged =
          Logged-move (release_event env item) (with_releases item releases s)
            (with_releases item (s.releases ++ item ∷ []) s) _ (create_release encode env raw s).0
            (ap (λ xs. with_releases item xs s) appended) (e1 ∙ e2 ∙ e3)
            (finish-Logged encode env _ _ _ _ h3);
      stored = subst (Stored encode env s) (sym (e1 ∙ e2 ∙ e3)) (
          with_releases-Stored encode env item releases s _
            (finish-Stored encode env _ _ _ (with_releases item releases s) coherent h3));
    }
