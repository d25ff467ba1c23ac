-- ===== src/Env.antt =====
-- What an operation of the runtime takes from outside: the clock, the actor, the files.
use layeros.Base.{ℕ, String, Bool, Option, List}
use layeros.Types.Vocabulary.{Time}
use layeros.Types.Review.{ReviewRoomItem}

-- The files of internal/runtime/disk.go, one for each entry of `persistDomains`, in its order.
pub data Domain : Type 0 where
  branch proposal agent_job observation continuity work flow approval event release deploy
        rollback :
      Domain
  target preflight policy gateway execute verify review_room memory auth state : Domain

-- One run of an operation. Its clock readings are one value, but the two that `newEvent` takes.
pub record Env : Type 0 where
  pub now : Time
  pub event_at : Time
  pub event_stamp : String  -- the reading behind an event's identifier, as Format writes it
  pub actor : String  -- `currentActor()`
  pub event_retention : ℕ  -- LAYER_OS_EVENT_RETENTION
  pub is_word : ℕ → Bool  -- unicode.IsLetter or unicode.IsDigit
  pub audit_items : Option (List ReviewRoomItem)  -- the repository's audits, none where they are off
  pub lease_error : Option String  -- what ensureWriterLease answers
  pub save_error : Domain → Option String  -- what writing a domain's first file answers
  pub second_error : Domain → Option String  -- and its second file, where it has two

unfoldable pub Domain-discrete : Discrete Domain
Domain-discrete = hlevel
