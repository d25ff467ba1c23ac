-- ===== src/Runtime/Intact/Steps.antt =====
-- Steps on the room and the log under a test.
use layeros.Base.{Bool, true, false, refl, none, if◌then◌else◌}
use layeros.State.{Service}
use layeros.Persist.{Outcome}
use layeros.Runtime.Intact.{Between}

pub if-Between :
    (b : Bool) (s t u : Service) → Between s t → Between s u → Between s (if b then t else u)
if-Between true s t u h k = h
if-Between false s t u h k = k

pub Between-refl : (s : Service) → Between s s
Between-refl s = record { same = refl }

pub if_outcome-Between :
    (b : Bool) (s : Service) (q r : Outcome)
    → Between s q.0
    → Between s r.0
    → Between s (if b then q else r).0
if_outcome-Between true s q r h k = h
if_outcome-Between false s q r h k = k

pub if_step-Between :
    (b : Bool) (s : Service) (r : Outcome)
    → Between s r.0
    → Between s (if b then r else (s, none)).0
if_step-Between true s r h = h
if_step-Between false s r h = record { same = refl }
