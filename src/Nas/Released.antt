-- ===== src/Nas/Released.antt =====
-- Who gets the credentials.
use go_fula.Prelude.{
  ℕ, String, ◌≡◌, ◌≢◌, ◌≤◌, refl, sym, ap, Bool, false, ◌||◌, Option, none, some, some-injective,
  ◌==◌, ltb, ltb-false, take, length, length-take, take_short, arith, eq_iff, Bool-cases, inl, inr,
}
use go_fula.Evm.Hex.{Text}
use go_fula.Access.Actions.{Action}
use go_fula.Access.Signing.{Platform, Request, accepted, verify_signed_request}
use go_fula.Access.Proxy
use go_fula.Access.Proxy.{Server, Handler, handler, rule, authorized, handed_to, serve_proxy}
use go_fula.Access.Proxy.Rules.{handed_to-serve_proxy, handed_action, owner_only-authorized}
use go_fula.Nas.{
  Credentials, Opened, not_exist, open_error, opened, Env, Reply, released, check_credentials,
  check_size, read_opened, check_target, check_request, nas_credentials_max_bytes,
  handle_nas_credentials,
}

-- The credentials are those of the file, and the request names this device.
pub record Genuine (env : Env) (body : Text) (c : Credentials) : Type 0 where
  pub content : Text
  pub self : String
  pub read : env.file ≡ opened (some content)
  pub short : length content ≤ 4096
  pub parsed : env.parse content ≡ some c
  pub known : env.kubo_peer_id ≡ some self
  pub not_empty : self ≢ ""
  pub named : env.decode_request (take 4096 body) ≡ some self

module _ (env : Env) (c : Credentials) (h : String) where
  credentials_released :
      (o : Option Credentials) → check_credentials env o ≡ released c h → o ≡ some c
  unfolding check_credentials
  credentials_released none e = cc
  credentials_released (some d) e = elim (Bool-cases (d.username == "" || d.password == "")) [
    | inl f ↦ absurd (cc (rw f at e))
    | inr f ↦ cc (rw f at e)
  ]

  small_enough : (t : Text) → ltb 4096 (length (take 4097 t)) ≡ false → length t ≤ 4096
  small_enough t e = omega (arith, ltb-false 4096 (length (take 4097 t)) e, length-take 4097 t)

  size_released :
      (o : Option Text)
      → check_size env o ≡ released c h
      → (t : Text) × (o ≡ some t) × (length t ≤ 4096) × (env.parse t ≡ some c)
  unfolding check_size nas_credentials_max_bytes
  size_released none e = cc
  size_released (some t) e = elim (Bool-cases (ltb 4096 (length (take 4097 t)))) [
    | inl f ↦ absurd (cc (rw f at e))
    | inr f ↦
        let short = small_enough t f in
        let whole = take_short 4097 t (omega (arith, short)) in
        let parsed = credentials_released (env.parse (take 4097 t)) (rw f at e) in
        (t, refl, short, rw whole at parsed)
  ]

  opened_released :
      (o : Opened)
      → read_opened env o ≡ released c h
      → (t : Text) × (o ≡ opened (some t)) × (length t ≤ 4096) × (env.parse t ≡ some c)
  unfolding read_opened
  opened_released not_exist e = cc
  opened_released open_error e = cc
  opened_released (opened o) e =
      let (t, same, short, parsed) = size_released o e in (t, ap opened same, short, parsed)

  target_released :
      (blox : String) (o : Option String)
      → check_target env blox o ≡ released c h
      → (o ≡ some blox) × (read_opened env env.file ≡ released c h)
  unfolding check_target
  target_released blox none e = cc
  target_released blox (some self) e = elim (Bool-cases (self == "")) [
    | inl f ↦ absurd (cc (rw f at e))
    | inr f ↦ elim (Bool-cases (blox == self)) [
      | inr g ↦ absurd (cc (rw (f, g) at e))
      | inl g ↦ (ap some (sym ((eq_iff blox self).0 g)), rw (f, g) at e)
    ]
  ]

  request_released :
      (body : Text) (o : Option String)
      → env.decode_request (take 4096 body) ≡ o
      → check_request env o ≡ released c h
      → Genuine env body c
  unfolding check_request
  request_released body none d e = absurd (cc)
  request_released body (some blox) d e = elim (Bool-cases (blox == "")) [
    | inl f ↦ absurd (cc (rw f at e))
    | inr f ↦
        let (known, rest) = target_released blox env.kubo_peer_id (rw f at e) in
        let (t, file, short, parsed) = opened_released env.file rest in
        record {
          content = t;
          self = blox;
          read = file;
          short = short;
          parsed = parsed;
          known = known;
          not_empty = λ g. ground (arith, eq_iff blox "");
          named = d;
        }
  ]

  pub released-Genuine :
      (body : Text) → handle_nas_credentials env body ≡ released c h → Genuine env body c
  unfolding handle_nas_credentials nas_credentials_max_bytes
  released-Genuine body e = request_released body (env.decode_request (take 4096 body)) refl e

-- The handler behind the proxy; `bytes` are the bytes of a body.
unfoldable pub nas_reply : Env → (String → Text) → Proxy.Reply → Option Reply
nas_reply env bytes (handed_to Handler.handle_nas_credentials from body) =
    some (handle_nas_credentials env (bytes body))
nas_reply env bytes _ = none

only_nas :
    (a : Action) → handler a ≡ some Handler.handle_nas_credentials → a ≡ Action.nas_credentials
unfolding handler
only_nas a h = ground arith

-- The owner of the device signed the request, with this body.
pub record OwnerAsked {Key : Type 0} (p : Platform Key) (now : ℕ) (s : Server) (r : Request)
    (body : String) : Type 0 where
  pub owned : s.authorizer ≢ ""
  pub signed : verify_signed_request p now r ≡ accepted s.authorizer body

module _ (env : Env) (bytes : String → Text) (decode : String → Option (String × Bool))
    {Key : Type 0} (p : Platform Key) (now : ℕ) (s : Server) (r : Request) (c : Credentials)
    (h : String) where
  handled :
      (reply : Proxy.Reply)
      → nas_reply env bytes reply ≡ some (released c h)
      → (from : String) × (body : String) × (reply
          ≡ handed_to Handler.handle_nas_credentials from body)
        × Genuine env (bytes body) c
  unfolding nas_reply
  handled (Proxy.status code) e = absurd (cc)
  handled (handed_to Handler.handle_nas_credentials from body) e =
      (from, body, refl, released-Genuine env c h (bytes body) (some-injective _ _ e))
  handled (handed_to _ from body) e = absurd (cc)

  -- If a request is answered with the credentials, the device has an owner, who signed the request,
  -- its body names this device, and the credentials are those of its file, of at most 4096 bytes.
  pub nas_reply-released :
      nas_reply env bytes (serve_proxy decode p now s r).1 ≡ some (released c h)
      → (body : String) × OwnerAsked p now s r body × Genuine env (bytes body) c
  nas_reply-released e =
      let (from, body, handed, genuine) = handled (serve_proxy decode p now s r).1 e in
      let (signed, ok) = handed_to-serve_proxy decode p now s r _ from body handed in
      let (a, found, runs) = handed_action decode p now s r _ from body handed in
      let is_nas = only_nas a runs in
      let (same, owned) =
        owner_only-authorized s from (p.path_base r.path) a ok found
          (rw is_nas (unfold rule in refl)) in
      (body, record { owned = owned; signed = rw same at signed }, genuine)
