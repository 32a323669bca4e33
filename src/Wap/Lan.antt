-- ===== src/Wap/Lan.antt =====
-- wap/pkg/server/lanbind.go and `multiCloser` of server.go: the listeners on the local network.
pub mod Once
pub mod Shut
use go_fula.Prelude.{
  ℕ, String, Bool, true, false, not, Option, none, some, List, [], ◌∷◌, ◌++◌, ◌==◌, if◌then◌else◌,
  elem,
}

-- `shut` are the listeners that were closed. A listener is named by the number that it got.
pub record MultiCloser : Type 0 where
  pub listeners : List ℕ
  pub closed : Bool
  pub shut : List ℕ

-- `add`
unfoldable pub add : ℕ → MultiCloser → Bool × MultiCloser
add l mc =
    if mc.closed
    then (false, record mc { shut = l ∷ mc.shut })
    else (true, record mc { listeners = mc.listeners ++ (l ∷ []) })

-- `Close`, whose errors are left out.
unfoldable pub close_all : MultiCloser → MultiCloser
close_all mc = record { listeners = []; closed = true; shut = mc.listeners ++ mc.shut }

-- The watcher's set `bound`, the latest first, whether it still runs, and the closer.
pub record Watcher : Type 0 where
  pub bound : List String
  pub running : Bool
  pub closer : MultiCloser

unfoldable pub registered : String → Bool × MultiCloser → Watcher → Watcher
registered addr (true, mc) w = record w { bound = addr ∷ w.bound; closer = mc }
registered addr (false, mc) w = record w { running = false; closer = mc }

-- net.Listen gives a listener or an error.
unfoldable pub listened : String → Option ℕ → Watcher → Watcher
unfolding registered add
listened addr none w = w
listened addr (some l) w = registered addr (add l w.closer) w

unfoldable pub bind_addr : String → Option ℕ → Watcher → Watcher
unfolding listened elem
bind_addr addr listen w =
    if not w.running then w else if elem addr w.bound then w else listened addr listen w

-- The addresses of the interfaces, each with what net.Listen would give.
unfoldable pub bind_addrs : List (String × Option ℕ) → Watcher → Watcher
unfolding bind_addr
bind_addrs [] w = w
bind_addrs ((addr, listen) ∷ rest) w = bind_addrs rest (bind_addr addr listen w)

-- What the watcher meets: a tick, on which the device has an owner or not, and the end of the
-- server, after or before which the watcher sees its channel closed.
pub data Event : Type 0 where
  tick : (owned : Bool) → List (String × Option ℕ) → Event
  closes stops : Event

unfoldable pub step : Event → Watcher → Watcher
unfolding bind_addrs close_all
step (tick owned addrs) w =
    if not w.running then w else if owned then record w { running = false } else bind_addrs addrs w
step closes w = record w { closer = close_all w.closer }
step stops w = record w { running = false }

unfoldable pub watch : List Event → Watcher → Watcher
unfolding step
watch [] w = w
watch (e ∷ es) w = watch es (step e w)

-- startLANSetupWatch: the watcher of a device without an owner.
unfoldable pub start_lan_setup_watch : Bool → List String → MultiCloser → Watcher
start_lan_setup_watch owned bound mc = record {
  bound = bound;
  running = not (if owned then true else mc.closed);
  closer = mc;
}
