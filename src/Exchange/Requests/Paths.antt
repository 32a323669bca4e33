-- ===== src/Exchange/Requests/Paths.antt =====
-- The paths that the clients ask for are read back by the server.
use Prim.Native.String.{◌++◌}
use text.Mathlib.TextLemmas.{nil-append, cons-append}
use go_fula.Prelude.{split_char, onto_first, Without, split_one, String, ◌≡◌, refl, [], ◌∷◌}
use go_fula.Exchange.Requests.{trim_slash, parts, or_empty}

-- pushOneNode and PullBlock: "/" + action + "/" + c.String()
unfoldable pub request_path : String → String → String
request_path action c = "/" ++ (action ++ ("/" ++ c))

-- A text without a slash, such as an action or the print of a cid.
abbrev pub NoSlash : String → Type 0
NoSlash s = Without b'/' s

split_two : (a c : String) → NoSlash a → NoSlash c → split_char b'/' (a ++ ("/" ++ c)) ≡ a ∷ c ∷ []
unfolding split_char onto_first
split_two String.[] c h k =
    rw nil-append (rw cons-append (rw nil-append (rw (split_one b'/' c k) refl)))
split_two (String.◌∷◌ d a) c h k = rw cons-append (rw h.0 (rw (split_two a c h.1 k) refl))

-- An action and a cid without slashes are read back from the path of the request.
pub parts-request_path :
    (action c : String) → NoSlash action → NoSlash c → parts (request_path action c) ≡ (action, c)
unfolding parts request_path trim_slash or_empty
parts-request_path action c h k =
    rw (cons-append _ ("") (action ++ ("/" ++ c)))
      (rw nil-append (rw (split_two action c h k) refl))
