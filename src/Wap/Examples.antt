-- ===== src/Wap/Examples.antt =====
-- Concrete requests and ticks.
use go_fula.Prelude.{
  ℕ, ◌≡◌, ◌⊎◌, ◌++◌, refl, true, false, not, ◌&&◌, none, some, List, [], ◌∷◌, ◌==◌,
}
use go_fula.Wap.Cors.{Env, Request, other, is_forwarded, lan_setup_guard, blox_has_owner}
use go_fula.Wap.Cors.Passes.{permitted, lan_setup_guard-permitted}
use go_fula.Wap.Lan.{MultiCloser, Watcher, Event, tick, closes, watch}
use go_fula.Wap.Lan.Once.{Distinct, Tidy}
use go_fula.Wap.Lan.Shut.{Among, obtained, watch-Shut}

abbrev env : Env
env = record {
  to_lower = λ s. s;
  trim_space = λ s. s;
  equal_fold = λ s t. s == t;
  cors_origins = "";
  authorizer = none;
}

abbrev request : Request
request = record {
  origin = "http://evil.example";
  sec_fetch_site = "cross-site";
  private_network = "";
  method = other;
  path = "/wifi/connect";
}

lan_setup_guard-permitted_example :
    is_forwarded (lan_setup_guard env request)
    ≡ not (blox_has_owner env env.authorizer) && permitted env request
lan_setup_guard-permitted_example = lan_setup_guard-permitted env request

refused_test : is_forwarded (lan_setup_guard env request) ≡ false
unfolding lan_setup_guard is_forwarded
refused_test = refl

abbrev closer : MultiCloser
closer = record { listeners = []; closed = false; shut = [] }

abbrev watcher : Watcher
watcher = record { bound = []; running = true; closer = closer }

abbrev events : List Event
events = tick false (("10.0.0.2:80", some 1) ∷ ("10.0.0.2:80", some 2) ∷ []) ∷ []

-- A tick that the watcher meets while the server is closed.
abbrev late : List Event
late = tick false (("10.0.0.3:80", some 3) ∷ []) ∷ []

late_is_shut : (watch (events ++ (closes ∷ late)) watcher).closer.shut ≡ 3 ∷ 1 ∷ []
unfolding watch
late_is_shut = refl

watch-Shut_example :
    let es = events ++ (closes ∷ late) in
    let v = watch es watcher in
    (v.closer.closed ≡ true)
    × (v.closer.listeners ≡ [])
    × ((l : ℕ)
        → Among l watcher.closer.listeners ⊎ Among l (obtained es watcher)
        → Among l v.closer.shut)
    × Distinct v.bound
watch-Shut_example = watch-Shut events late watcher (tt, unfold Tidy in λ e. refl)
