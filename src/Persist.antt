-- ===== src/Persist.antt =====
-- internal/runtime/service.go, persistLocked: the domains that changed are written, in order, and
-- the first error ends it.
pub mod Files
pub mod Kept
pub mod Loop
pub mod Success
pub mod Partial
pub mod Archive
use mathlib.Core.Logic.{ite}
use layeros.Base.{
  String, Bool, true, false, not, ◌||◌, Option, none, some, List, [], ◌∷◌, ◌++◌, if◌then◌else◌,
  ◌==◌,
}
use layeros.Env.{
  Domain, Domain-discrete, branch, proposal, agent_job, observation, continuity, work, flow,
  approval, event, release, deploy, rollback, target, preflight, policy, gateway, execute, verify,
  review_room, memory, auth, state, Env,
}
use layeros.EventStore.{mark_archive_persisted}
use layeros.Review.Room.{normalize_room}
use layeros.Types.Review.{ReviewRoom}
use layeros.Review.Items.{no_items}
use layeros.Review.Sync.{sync_audit_room}
use layeros.State.{Service, Saved, saved}

unfoldable pub persist_domains : List Domain
persist_domains =
    branch ∷ proposal ∷ agent_job ∷ observation ∷ continuity ∷ work ∷ flow ∷ approval ∷ event
    ∷ release ∷ deploy ∷ rollback ∷ target ∷ preflight ∷ policy ∷ gateway ∷ execute ∷ verify
    ∷ review_room ∷ memory ∷ auth ∷ state ∷ []

abbrev pub write : Domain → String → (Domain → String) → Domain → String
write d text files e = ite (Domain-discrete e d) text (files e)

-- What a method leaves: the service, changed or not, and the error if there is one.
abbrev pub Outcome : Type 0
Outcome = Service × Option String

abbrev pub and_then : Outcome → (Service → Outcome) → Outcome
and_then (s, none) f = f s
and_then (s, some e) f = (s, some e)

-- the audits' items are brought up to date before anything is written
abbrev pub set_room : Env → Service → ReviewRoom × Bool → Service
set_room env s (room, true) = record s { room = normalize_room env.now room }
set_room env s (room, false) = s

unfoldable pub synced : Env → Service → Service
synced env s = set_room env s (sync_audit_room env s.room)

unfoldable pub any_dirty : (Domain → Bool) → List Domain → Bool
any_dirty flags [] = false
any_dirty flags (d ∷ ds) = flags d || any_dirty flags ds

abbrev pub leased : Option String → Service → (Service → Outcome) → Outcome
leased (some e) s f = (s, some e)
leased none s f = f s

-- `encode` is `json.Marshal`, the text of what a domain saves.
module _ (encode : (d : Domain) → Saved d → String) where
  abbrev pub signature : Domain → Service → String
  signature d s = encode d (saved d s)

  unfoldable pub is_dirty : Domain → Service → Bool
  is_dirty event s =
      not (no_items s.events.pending_archive) || not (signature event s == s.persisted event)
  is_dirty d s = not (signature d s == s.persisted d)

  abbrev pub write_file : Domain → Service → Service
  write_file d s = record s {
    disk = record (s.disk) { file = write d (signature d s) s.disk.file };
  }

  -- one file
  abbrev pub save_plain : Domain → Option String → Service → Outcome
  save_plain d (some e) s = (s, some e)
  save_plain d none s = (write_file d s, none)

  -- the archive gets the queue, then the file of the recent events is written
  abbrev pub archive_queue : Service → Service
  archive_queue s = record s {
    disk = record (s.disk) { archive = s.disk.archive ++ s.events.pending_archive };
  }

  abbrev pub save_event : Option String → Option String → Service → Outcome
  save_event (some e) second s = (s, some e)
  save_event none (some e) s = (archive_queue s, some e)
  save_event none none s = (
    record (write_file event (archive_queue s)) { events = mark_archive_persisted s.events },
    none,
  )

  -- the room, then its seal
  abbrev pub seal_room : Service → Service
  seal_room s = record s { disk = record (s.disk) { sealed_room = some s.room } }

  abbrev pub save_room : Option String → Option String → Service → Outcome
  save_room (some e) second s = (s, some e)
  save_room none (some e) s = (write_file review_room s, some e)
  save_room none none s = (seal_room (write_file review_room s), none)

  -- the records, then the session checkpoint, which is not modelled
  abbrev pub save_continuity : Option String → Option String → Service → Outcome
  save_continuity (some e) second s = (s, some e)
  save_continuity none second s = (write_file continuity s, second)

  -- the `save` of a domain
  unfoldable pub save : Env → Domain → Service → Outcome
  save env event s = save_event (env.save_error event) (env.second_error event) s
  save env review_room s = save_room (env.save_error review_room) (env.second_error review_room) s
  save env continuity s =
      save_continuity (env.save_error continuity) (env.second_error continuity) s
  save env d s = save_plain d (env.save_error d) s

  -- the loop over the domains that `flags` marked dirty beforehand
  unfoldable pub save_all : Env → (Domain → Bool) → List Domain → Service → Outcome
  save_all env flags [] s = (s, none)
  save_all env flags (d ∷ ds) s =
      let rest = save_all env flags ds in if flags d then and_then (save env d s) rest else rest s

  abbrev pub mark_persisted : Service → Service → Outcome
  mark_persisted snapshot t = (record t { persisted = λ d. signature d snapshot }, none)

  unfoldable pub persist_flagged : Env → (Domain → Bool) → Service → Outcome
  persist_flagged env flags s =
      if any_dirty flags persist_domains
      then and_then (save_all env flags persist_domains s) (mark_persisted s)
      else (s, none)

  unfoldable pub persist_snapshot : Env → Service → Outcome
  persist_snapshot env s = persist_flagged env (λ d. is_dirty d s) s

  unfoldable pub persist_locked : Env → Service → Outcome
  persist_locked env s = leased env.lease_error s (λ t. persist_snapshot env (synced env t))
