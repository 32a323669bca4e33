-- ===== src/Wap/Cors/Passes.antt =====
-- Which requests reach the routes.
use go_fula.Prelude.{
  String, [], ◌∷◌, map, split_char, ◌≡◌, ◌∙◌, refl, Bool, true, false, not, ◌&&◌, ◌||◌, ◌==◌,
  if◌then◌else◌, Bool-cases, inl, inr,
}
use go_fula.Wap.Cors.{
  Env, Request, Method, get, head, options, other, any_equal, not_empty, port_or_end, strip_prefix,
  Headers, Outcome, status, forwarded, origin_allowed, cross_site_fetch, is_options, reads,
  mutating_get_path, mutating, with_cors, blox_has_owner, lan_setup_guard, is_forwarded,
}

-- What a browser may not do for a page of another origin: anything but GET and HEAD, and five paths
-- that change the device on a GET.
unfoldable pub changes : Method → String → Bool
changes options path = true
changes other path = true
changes _ path =
    path == "/ap/enable"
    || path == "/ap/disable"
    || path == "/pools/join"
    || path == "/pools/leave"
    || path == "/pools/cancel"

-- Sec-Fetch-Site names another site than the page's own, and the user did not open it.
unfoldable pub elsewhere : Env → String → Bool
elsewhere env site =
    not
      (env.to_lower site == "" || env.to_lower site == "same-origin" || env.to_lower site == "none")

unfoldable pub preflight : Method → Bool
preflight get = false
preflight head = false
preflight options = true
preflight other = false

-- WAP_CORS_ORIGINS, split at the commas, or the three origins of the project, or a local one.
unfoldable pub trusted : Env → String → Bool
trusted env origin =
    any_equal env origin (
      if env.trim_space env.cors_origins == ""
      then "https://blox.fx.land" ∷ "https://docs.fx.land" ∷ "https://functionland.github.io" ∷ []
      else not_empty (map env.trim_space (split_char b',' (env.trim_space env.cors_origins))))
    || (port_or_end (strip_prefix "http://localhost" origin)
        || port_or_end (strip_prefix "http://127.0.0.1" origin))

-- A page sends its origin: it may read, and change what it likes if it is trusted; the preflights
-- are answered before the routes. Without an origin, a browser may not change anything for another
-- site, and everything else may.
unfoldable pub permitted : Env → Request → Bool
unfolding changes elsewhere preflight trusted
permitted env r =
    let safe = not (changes r.method r.path) in
    if r.origin == ""
    then not (elsewhere env r.sec_fetch_site) || safe
    else not (preflight r.method) && (trusted env r.origin || safe)

method_changes :
    (env : Env) (m : Method) (path : String)
    → not (reads env m) || mutating_get_path path ≡ changes m path
unfolding changes reads mutating_get_path
method_changes env get path = refl
method_changes env head path = refl
method_changes env options path = refl
method_changes env other path = refl

mutating-changes : (env : Env) (r : Request) → mutating env r ≡ changes r.method r.path
unfolding mutating
mutating-changes env r = method_changes env r.method r.path

is_options-preflight : (env : Env) (m : Method) → is_options env m ≡ preflight m
unfolding is_options preflight
is_options-preflight env get = refl
is_options-preflight env head = refl
is_options-preflight env options = refl
is_options-preflight env other = refl

none_of : (a b c : Bool) → not a && not b && not c ≡ not (a || b || c)
none_of true b c = refl
none_of false true c = refl
none_of false false c = refl

cross_site_elsewhere :
    (env : Env) (r : Request) → cross_site_fetch env r ≡ elsewhere env r.sec_fetch_site
unfolding cross_site_fetch elsewhere
cross_site_elsewhere env r = none_of _ _ _

allowed_trusted :
    (env : Env) (origin : String)
    → origin == "" ≡ false
    → origin_allowed env origin ≡ trusted env origin
unfolding origin_allowed trusted
allowed_trusted env origin h = rw h refl

tests :
    (no_origin cross preflight changes allowed : Bool) (n h : Headers) (o : Outcome)
    → is_forwarded o ≡ false
    → (no_origin ≡ true → allowed ≡ false)
    → is_forwarded (
        if no_origin && not cross
        then forwarded n
        else if not no_origin && preflight
        then o
        else if changes && not allowed
        then status 403 h
        else forwarded h)
      ≡ (if no_origin then not cross || not changes else not preflight && (allowed || not changes))
unfolding is_forwarded
tests true true preflight true allowed n h o e k = rw (k refl) refl
tests true true preflight false allowed n h o e k = refl
tests true false preflight changes allowed n h o e k = refl
tests false cross true changes allowed n h o e k = e
tests false cross false true true n h o e k = refl
tests false cross false true false n h o e k = refl
tests false cross false false true n h o e k = refl
tests false cross false false false n h o e k = refl

no_origin_refused :
    (env : Env) (origin : String) → origin == "" ≡ true → origin_allowed env origin ≡ false
unfolding origin_allowed
no_origin_refused env origin h = rw h refl

-- Of two tests that agree where they are made.
same_test :
    (no_origin cross preflight changes allowed allowed' : Bool)
    → (no_origin ≡ false → allowed ≡ allowed')
    → (if no_origin then not cross || not changes else not preflight && (allowed || not changes))
      ≡ (if no_origin then not cross || not changes else not preflight && (allowed' || not changes))
same_test true cross preflight changes a b h = refl
same_test false cross preflight changes a b h = rw (h refl) refl

with_cors_tests :
    (env : Env) (r : Request)
    → is_forwarded (with_cors env r) ≡ (
        if r.origin == ""
        then not (cross_site_fetch env r) || not (mutating env r)
        else not (is_options env r.method) && (origin_allowed env r.origin || not (mutating env r)))
unfolding with_cors
with_cors_tests env r =
    tests (r.origin == "") (cross_site_fetch env r) (is_options env r.method) (mutating env r)
      (origin_allowed env r.origin) _ _ _ (unfold is_forwarded in refl)
      (no_origin_refused env r.origin)

with_cors-permitted : (env : Env) (r : Request) → is_forwarded (with_cors env r) ≡ permitted env r
unfolding permitted
with_cors-permitted env r =
    let as_tested =
      same_test (r.origin == "") (elsewhere env r.sec_fetch_site) (preflight r.method)
        (changes r.method r.path) _ _ (allowed_trusted env r.origin) in
    with_cors_tests env r
    ∙ rw (mutating-changes env r, is_options-preflight env r.method, cross_site_elsewhere env r)
        as_tested

-- A request on the local network reaches the routes of the setup server exactly if the device has
-- no owner and the request is permitted: with no origin, it changes nothing or Sec-Fetch-Site is
-- missing, "same-origin" or "none"; with an origin, it is no preflight, and changes nothing or comes
-- from a trusted origin. All but GET and HEAD changes something, and the five paths do.
pub lan_setup_guard-permitted :
    (env : Env) (r : Request)
    → is_forwarded (lan_setup_guard env r)
      ≡ not (blox_has_owner env env.authorizer) && permitted env r
unfolding lan_setup_guard is_forwarded
lan_setup_guard-permitted env r = elim (Bool-cases (blox_has_owner env env.authorizer)) [
  | inl e ↦ rw e refl
  | inr e ↦ rw e (with_cors-permitted env r)
]
