-- ===== src/Ping.antt =====
-- ping/ping.go: the ping server of a node. `count` is the option, taken as not negative and small
-- enough that three times it does not overflow.
pub mod Limit
pub mod Lifecycle
mod Examples
use go_fula.Prelude.{
  ℕ, zero, suc, ◌+◌, ◌*◌, String, Bool, true, false, ◌&&◌, not, Option, none, some, List, [], ◌∷◌,
  ◌==◌, ltb, eqb, if◌then◌else◌, Assoc, lookup, put, length,
}
use go_fula.Evm.Hex.{Text}

-- `locked`: `mu` is held by a call that has returned. `serving`: s.Serve runs on a listener.
-- `closed`: s.Shutdown has been called, after which net/http serves nothing.
pub record Server : Type 0 where
  pub started : Bool
  pub locked : Bool
  pub serving : Bool
  pub closed : Bool
  pub pinged : Assoc ℕ

unfoldable pub admit : ℕ → String → Assoc ℕ → Option ℕ → Bool × Assoc ℕ
admit count pid pinged none = (true, put pid 1 pinged)
admit count pid pinged (some n) = (ltb n (count * 3), put pid (n + 1) pinged)

-- authorized, on pingedPeers
unfoldable pub authorized : ℕ → String → String → Assoc ℕ → Bool × Assoc ℕ
unfolding admit lookup
authorized count pid action pinged =
    let ping = admit count pid pinged (lookup pid pinged) in
    if action == "ping" then ping else (false, pinged)

-- Both the request and the response.
pub record Message : Type 0 where
  pub id : String
  pub content : Text

-- base64.StdEncoding
pub record Base64 : Type 0 where
  pub encode : Text → Text
  pub decode : Text → Option Text

pub data Reply : Type 0 where
  status : ℕ → Reply
  answered : Message → Reply

unfoldable pub echo : Base64 → String → Option Text → Reply
echo base64 id none = status 400
echo base64 id (some bytes) = answered (record { id = id; content = base64.encode bytes })

unfoldable pub answer_ping : Base64 → Option Message → Reply
unfolding echo
answer_ping base64 none = status 400
answer_ping base64 (some m) = echo base64 m.id (base64.decode m.content)

-- `size` is the Content-Length, zero if it is unknown.
unfoldable pub handle_ping : Base64 → ℕ → Option Message → Reply
unfolding answer_ping
handle_ping base64 size body =
    if ltb 1024 size then status 413 else if eqb size 0 then status 411 else answer_ping base64 body

unfoldable pub serve_authorized : Base64 → ℕ → Option Message → Bool × Assoc ℕ → Reply × Assoc ℕ
unfolding handle_ping
serve_authorized base64 size body (true, pinged) = (handle_ping base64 size body, pinged)
serve_authorized base64 size body (false, pinged) = (status 401, pinged)

-- `none` is a remote address that is no peer id.
unfoldable pub serve :
    Base64 → ℕ → Option String → String → ℕ → Option Message → Assoc ℕ → Reply × Assoc ℕ
unfolding serve_authorized authorized
serve base64 count none action size body pinged = (status 400, pinged)
serve base64 count (some pid) action size body pinged =
    serve_authorized base64 size body (authorized count pid action pinged)

-- What Ping does with a response: whether the attempt is counted as a success.
unfoldable pub same_length : Text → Option Text → Bool
same_length sent none = false
same_length sent (some got) = eqb (length got) (length sent)

unfoldable pub successful : Base64 → String → Text → Reply → Bool
unfolding same_length
successful base64 id sent (status code) = false
successful base64 id sent (answered m) = m.id == id && same_length sent (base64.decode m.content)

-- The calls that hold `mu`; each blocks for good if it is locked.
pub data Call : Type 0 where
  start : Bool → Call  -- whether gostream.Listen succeeds
  stop_server : Call
  shutdown : Call

pub data Outcome : Type 0 where
  done : Outcome
  already_started : Outcome
  cannot_listen : Outcome
  blocked : Outcome

unfoldable pub start_server : Bool → Server → Outcome × Server
start_server listens s =
    if s.started
    then (already_started, s)
    else if listens
    then (done, record s { started = true; serving = not s.closed })
    else (cannot_listen, record s { locked = true })

unfoldable pub stopped : Server → Server
stopped s = record s { started = false; serving = false; closed = true; pinged = [] }

unfoldable pub perform : Call → Server → Outcome × Server
unfolding start_server stopped
perform (start listens) s = start_server listens s
perform stop_server s = (done, stopped s)
perform shutdown s = (done, stopped s)

unfoldable pub call : Call → Server → Outcome × Server
unfolding perform
call c s = let r = perform c s in if s.locked then (blocked, s) else r

unfoldable pub run_calls : List Call → Server → List Outcome × Server
unfolding call
run_calls [] s = ([], s)
run_calls (c ∷ cs) s =
    let (outcome, s') = call c s in
    let (outcomes, s'') = run_calls cs s' in (outcome ∷ outcomes, s'')

-- Status; `none` is a call that does not return.
unfoldable pub server_status : Server → Option Bool
server_status s = if s.locked then none else some s.started

-- New, with an http.Server that has served nothing.
abbrev pub new_server : Server
new_server = record {
  started = false;
  locked = false;
  serving = false;
  closed = false;
  pinged = [];
}
