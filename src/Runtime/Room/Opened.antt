-- ===== src/Runtime/Room/Opened.antt =====
-- What opening an item changes of a service.
use layeros.Base.{Bool, true, false, refl, Option, none, some}
use layeros.Types.Review.{ReviewRoom, ReviewRoomItem}
use layeros.Env.{Env}
use layeros.State.{Service}
use layeros.Runtime.Intact.{Between, log-Between, Between-trans, checked-Between}
use layeros.Runtime.Room.{auto_opened, auto_open, auto_open_some, keep_room}

pub keep_room-Between :
    (env : Env) (room : ReviewRoom) (s : Service) → Between s (keep_room env room s)
keep_room-Between env room s = record { same = refl }

auto_opened-Between :
    (env : Env) (s : Service) (item : ReviewRoomItem) (r : ReviewRoom × Bool)
    → Between s (auto_opened env s item r).0
unfolding auto_opened
auto_opened-Between env s item (room, false) = record { same = refl }
auto_opened-Between env s item (room, true) =
    Between-trans s (keep_room env room s) _ (keep_room-Between env room s)
      (log-Between _ (keep_room env room s))

pub auto_open-Between :
    (env : Env) (item : ReviewRoomItem) (s : Service) → Between s (auto_open env item s).0
unfolding auto_open
auto_open-Between env item s =
    checked-Between s _ (auto_opened env s item) (auto_opened-Between env s item)

-- Only the room and the log change.
pub auto_open_some-Between :
    (env : Env) (item : Option ReviewRoomItem) (s : Service)
    → Between s (auto_open_some env item s).0
unfolding auto_open_some
auto_open_some-Between env none s = record { same = refl }
auto_open_some-Between env (some item) s = auto_open-Between env item s
