-- ===== src/Mobile/Requests/Sent.antt =====
-- What comes back from a call of the app.
use go_fula.Prelude.{
  ℕ, ◌+◌, ◌≡◌, refl, sym, subst, ap, ◌∙◌, String, Bool, true, false, Option, none, some, arith,
  if◌then◌else◌, ◌==◌, eq_iff, Bool-cases, inl, inr,
}
use go_fula.Access.Actions
use go_fula.Access.Actions.{Action, name}
use go_fula.Access.Proxy.{authorized}
use go_fula.Client
use go_fula.Client.{perform, transfer_action, transfer_on}
use go_fula.Client.Node.{Node, paired}
use go_fula.Client.Answered.{perform-Reached, transfer_to_fula-Unreachable}
use go_fula.Mobile.{Client, begin_op, done}
use go_fula.Mobile.Requests.{
  Outcome, client_closed, answered, Phone, outcome, gated, within_op, transfer_to_fula_request,
}
use go_fula.Mobile.Requests.Calls.{transfer, transfer_to_fula}

gated_cases :
    (c : Client) (o : Outcome) (closed : Bool)
    → ((gated (if closed then none else some (record c { inflight = c.inflight + 1 })) c o).1 ≡ c)
      × ((gated (if closed then none else some (record c { inflight = c.inflight + 1 })) c o).0
          ≡ (if closed then client_closed else o))
unfolding gated done
gated_cases c o true = (refl, refl)
gated_cases c o false = (ap (λ n. record c { inflight = n }) (omega arith), refl)

module _ (p : Phone) where
  -- A call of the app ends the operation that it begins, and is refused exactly on a client that is
  -- closed; what its work gives is given by an open client alone.
  pub within_op-client_closed :
      (o : Outcome)
      → ((within_op p o).1 ≡ p.life)
        × ((within_op p o).0 ≡ (if p.life.closed then client_closed else o))
  unfolding within_op begin_op
  within_op-client_closed o = gated_cases p.life o p.life.closed

outcome_answered : (o : Option String) (b : String) → outcome o ≡ answered b → o ≡ some b
unfolding outcome
outcome_answered none b e = absurd (cc e)
outcome_answered (some a) b e = cc e

module _ (encode : String → Option String) (n : Node) where
  -- What a transfer that gives a result went through on the device.
  Transferred : String → Type 0
  Transferred chain =
      (chain ≡ "mumbai") × (authorized n.server n.from (name Actions.transfer_to_mumbai) ≡ true)

  transfer_to_fula-Transferred :
      (chain r b : String)
      → Client.transfer_to_fula (paired encode n) chain r ≡ some b
      → Transferred chain
  unfolding Client.transfer_to_fula transfer_on transfer_action Transferred
  transfer_to_fula-Transferred chain r b e = elim (Bool-cases (chain == "mumbai")) [
    | inl m ↦ (
      ground (arith, eq_iff chain "mumbai"),
      (perform-Reached encode n (Client.transfer Actions.transfer_to_mumbai) r 202 b refl
          (omega arith) (rw m at e)).0,
    )
    | inr other ↦ elim (Bool-cases (chain == "goerli")) [
      | inl g ↦ absurd (cc ((transfer_to_fula-Unreachable encode n r).5, rw (other, g) at e))
      | inr unknown ↦ absurd (cc (rw (other, unknown) at e))
    ]
  ]

  passed :
      (closed : Bool) (o : Option String) (b : String)
      → (if closed then client_closed else outcome o) ≡ answered b
      → (closed ≡ false) × (o ≡ some b)
  passed true o b e = absurd (cc e)
  passed false o b e = (refl, outcome_answered o b e)

  parsed :
      (p : Phone) (wallet chain b : String) (amount : Option ℕ)
      → p.bl ≡ paired encode n
      → transfer p wallet chain amount ≡ some b
      → ((v : ℕ) × (amount ≡ some v)) × Transferred chain
  unfolding transfer
  parsed p wallet chain b none same e = absurd (cc e)
  parsed p wallet chain b (some v) same e =
      let r = p.shown (transfer_to_fula_request wallet v chain) in
      (
        (v, refl),
        transfer_to_fula-Transferred chain r b
            (subst (λ c. Client.transfer_to_fula c chain r ≡ some b) same e),
      )

  -- A transfer of the app that gives a result, on a phone that is paired with a device: the client is
  -- open, the amount is one of 64 bits, the chain is "mumbai", and the device authorized the phone.
  pub transfer_to_fula-answered :
      (p : Phone) (amount wallet chain b : String)
      → p.bl ≡ paired encode n
      → (transfer_to_fula p amount wallet chain).0 ≡ answered b
      → (p.life.closed ≡ false)
        × ((v : ℕ) × (p.parse_uint amount ≡ some v))
        × (chain ≡ "mumbai")
        × (authorized n.server n.from (name Actions.transfer_to_mumbai) ≡ true)
  unfolding transfer_to_fula transfer Transferred
  transfer_to_fula-answered p amount wallet chain b same e =
      let got = transfer p wallet chain (p.parse_uint amount) in
      let (open_client, sent) =
        passed p.life.closed got b (sym (within_op-client_closed p (outcome got)).1 ∙ e) in
      let (number, rest) = parsed p wallet chain b (p.parse_uint amount) same sent in
      (open_client, number, rest.0, rest.1)
