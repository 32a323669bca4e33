-- ===== src/Client/Answered.antt =====
-- What the methods of a client give: doP2PRequest of blockchain/blockchain.go on the replies of a
-- device.
use go_fula.Prelude.{
  ℕ, String, true, Option, none, some, ◌≡◌, ◌≢◌, ◌<◌, ◌⊎◌, inl, inr, arith, is_some, Option-cases,
  Bool-cases, refl, ap, ◌∙◌,
}
use go_fula.Access.Actions.{Action, name}
use go_fula.Access.Proxy
use go_fula.Access.Proxy.{Method, Handler, authorized, handler, rule, never}
use go_fula.Access.Proxy.Named.{never-authorized, dispatch-handed, dispatch-missing}
use go_fula.Pool.Cancel.{came}
use go_fula.Client.{
  Operation, expected, response_body, do_p2p_request, request_body, perform, transfer_to_fula,
  transfer_on, transfer_action, transfer,
}
use go_fula.Client.Device.{handle_delete_wifi-Lost, handle_disconnect_wifi-Lost}
use go_fula.Client.Node.{Node, answer, sent, reply, paired}
use go_fula.Client.Operations.Account
use go_fula.Client.Operations.Blox
use go_fula.Client.Operations.Manifest
use go_fula.Client.Operations.Pool

error_status : (s t : ℕ) (b c : String) → s < t → response_body (some s) (came c t) ≡ some b → ⊥
unfolding response_body expected
error_status s t b c small e = ground arith

module _ (n : Node) where
  reply-Reached :
      (s : ℕ) (m : Method) (a : Action) (body b : String)
      → s < 300
      → response_body (some s) (reply n m a body) ≡ some b
      → (authorized n.server n.from (name a) ≡ true) × (is_some (handler a) ≡ true)
  unfolding reply
  reply-Reached s m a body b small e = elim (Bool-cases (authorized n.server n.from (name a))) [
    | inr unauthorized ↦ absurd (error_status s 401 b "" (ground arith) (rw unauthorized at e))
    | inl authorized_ok ↦ (
      authorized_ok,
      elim (Option-cases (handler a)) [
        | inl missing ↦ absurd (
            error_status s 404 b "" (ground arith) (
              rw (authorized_ok, dispatch-missing n.decode n.server n.from body a missing, sent) at
                e))
        | inr (h, found) ↦ ap is_some found
      ],
    )
  ]

module _ (encode : String → Option String) (n : Node) (op : Operation) (r : String) where
  -- What a client gets for an action that the device authorizes for it is what the handler of the
  -- action answers to the request, if the status is the one that the client's method expects; for
  -- any handler but that of authorizations.
  pub perform-answer :
      (body : String) (h : Handler)
      → request_body (paired encode n) op.sends_body r ≡ some body
      → authorized n.server n.from (name op.action) ≡ true
      → handler op.action ≡ some h
      → h ≢ Proxy.handle_authorization
      → perform (paired encode n) op r ≡ response_body op.expects (answer n h body)
  unfolding perform do_p2p_request paired reply
  perform-answer body h e ok found other =
      rw (e, ok, dispatch-handed n.decode n.server n.from body op.action h found other, sent)

  -- Where a method expects a status below 300 and gives a result, the device authorized the action
  -- for the client and has a handler for it.
  pub perform-Reached :
      (s : ℕ) (b : String)
      → op.expects ≡ some s
      → s < 300
      → perform (paired encode n) op r ≡ some b
      → (authorized n.server n.from (name op.action) ≡ true) × (is_some (handler op.action) ≡ true)
  unfolding perform do_p2p_request paired reply
  perform-Reached s b e small got =
      elim (Option-cases (request_body (paired encode n) op.sends_body r)) [
        | inl bad ↦ absurd (cc (rw bad at got))
        | inr (body, good) ↦
            reply-Reached n s op.method op.action body b small (rw (good, e) at got)
      ]

module _ (encode : String → Option String) (n : Node) (r : String) where
  -- A method for an action that authorized permits to nobody, or that dispatch has no handler for,
  -- gives no result.
  perform-Lost :
      (op : Operation) (s : ℕ)
      → op.expects ≡ some s
      → s < 300
      → (rule op.action ≡ never) ⊎ (handler op.action ≡ none)
      → perform (paired encode n) op r ≡ none
  perform-Lost op s e small why = elim (Option-cases (perform (paired encode n) op r)) [
    | inl none_got ↦ none_got
    | inr (b, got) ↦
        let (permitted, handled) = perform-Reached encode n op r s b e small got in
        elim why [
          | inl forbidden ↦ absurd (cc (never-authorized n.server n.from op.action forbidden))
          | inr missing ↦ absurd (cc (ap is_some missing))
        ]
  ]

  -- On every device, AccountCreate, AccountBalance, AccountFund, PoolUserList, ManifestBatchStore and
  -- a TransferToFula on goerli end with an error, whatever the device's handlers answer.
  pub transfer_to_fula-Unreachable :
      (perform (paired encode n) Account.account_create r ≡ none)
      × (perform (paired encode n) Account.account_balance r ≡ none)
      × (perform (paired encode n) Account.account_fund r ≡ none)
      × (perform (paired encode n) Pool.pool_user_list r ≡ none)
      × (perform (paired encode n) Manifest.manifest_batch_store r ≡ none)
      × (transfer_to_fula (paired encode n) "goerli" r ≡ none)
  unfolding transfer_to_fula transfer_on transfer_action handler rule
  transfer_to_fula-Unreachable = (
    perform-Lost Account.account_create 202 refl (omega arith) (inr refl),
    perform-Lost Account.account_balance 202 refl (omega arith) (inr refl),
    perform-Lost Account.account_fund 202 refl (omega arith) (inr refl),
    perform-Lost Pool.pool_user_list 202 refl (omega arith) (inl refl),
    perform-Lost Manifest.manifest_batch_store 202 refl (omega arith) (inl refl),
    perform-Lost (transfer Action.transfer_to_goerli) 202 refl (omega arith) (inl refl),
  )

  perform-Lost_answer :
      (op : Operation) (h : Handler)
      → op.expects ≡ some 202
      → handler op.action ≡ some h
      → h ≢ Proxy.handle_authorization
      → ((body : String) → response_body (some 202) (answer n h body) ≡ none)
      → perform (paired encode n) op r ≡ none
  unfolding perform do_p2p_request reply paired
  perform-Lost_answer op h e found other wrong =
      elim (Option-cases (request_body (paired encode n) op.sends_body r)) [
        | inl bad ↦ rw bad
        | inr (body, good) ↦ elim (Bool-cases (authorized n.server n.from (name op.action))) [
          | inl permitted ↦
              perform-answer encode n op r body h good permitted found other
              ∙ ap (λ x. response_body x (answer n h body)) e
              ∙ wrong body
          | inr unauthorized ↦ rw (good, unauthorized, e)
        ]
      ]

  -- DeleteWifi and DisconnectWifi give no result on any device, also on one that did what they ask
  -- for.
  pub delete_wifi-Lost :
      (perform (paired encode n) Blox.delete_wifi r ≡ none)
      × (perform (paired encode n) Blox.disconnect_wifi r ≡ none)
  unfolding handler answer
  delete_wifi-Lost = (
    perform-Lost_answer Blox.delete_wifi Proxy.handle_delete_wifi refl refl (λ same. cc same)
        (λ body. handle_delete_wifi-Lost n.wifi n.json body),
    perform-Lost_answer Blox.disconnect_wifi Proxy.handle_disconnect_wifi refl refl
        (λ same. cc same) (λ body. handle_disconnect_wifi-Lost n.wifi n.json body),
  )
