-- ===== src/Mobile.antt =====
-- The life of the phone's client: NewClient, beginOp and Shutdown of mobile/client.go. What stands
-- under lifeMu is one step; the calls behind the wait of Shutdown are one step each.
pub mod Drained
pub mod Connection
pub mod Requests
mod Examples
use go_fula.Prelude.{
  ℕ, ◌+◌, ◌-◌, ◌<◌, ◌≡◌, Bool, true, false, Option, none, some, List, [], ◌∷◌, ◌++◌, if◌then◌else◌,
}

-- What Shutdown closes, with the flush of the datastore; without a DHT, the step of `dht` is empty.
pub data Part : Type 0 where
  exchange dht host flushed datastore : Part

abbrev pub parts : List Part
parts = exchange ∷ dht ∷ host ∷ flushed ∷ datastore ∷ []

-- Where the one call of Shutdown that set `closed` stands.
pub data Stage : Type 0 where
  open_stage : Stage
  waits : Stage
  frees : List Part → Stage

-- The lifecycle fields of Client, that call of Shutdown, and what it has closed.
pub record Client : Type 0 where
  pub closed : Bool
  pub op_cancelled : Bool
  pub inflight : ℕ
  pub stage : Stage
  pub freed : List Part

unfoldable pub new_client : Client
new_client = record {
  closed = false;
  op_cancelled = false;
  inflight = 0;
  stage = open_stage;
  freed = [];
}

-- `none` is ErrClientClosed.
unfoldable pub begin_op : Client → Option Client
begin_op c = if c.closed then none else some (record c { inflight = c.inflight + 1 })

-- The function that beginOp returns.
unfoldable pub done : Client → Client
done c = record c { inflight = c.inflight - 1 }

-- Shutdown up to its wait; a call on a closed client returns.
unfoldable pub shutdown : Client → Client
shutdown c = if c.closed then c else record c { closed = true; op_cancelled = true; stage = waits }

unfoldable pub free : Part → List Part → Client → Client
free p rest c = record c { stage = frees rest; freed = c.freed ++ (p ∷ []) }

-- What the goroutines of a client do: an operation is admitted or refused, one that was admitted uses
-- a part or ends, Shutdown is called, its wait ends, and it closes the next part.
pub data Step (c d : Client) : Type 0 where
  admits : begin_op c ≡ some d → Step c d
  rejects : begin_op c ≡ none → d ≡ c → Step c d
  uses : Part → 0 < c.inflight → d ≡ c → Step c d
  ends : 0 < c.inflight → d ≡ done c → Step c d
  shuts : d ≡ shutdown c → Step c d
  drains : c.stage ≡ waits → c.inflight ≡ 0 → d ≡ record c { stage = frees parts } → Step c d
  closes : (p : Part) (rest : List Part) → c.stage ≡ frees (p ∷ rest) → d ≡ free p rest c → Step c d

pub data Reach (c : Client) : Client → Type 0 where
  here : Reach c c
  next : {d e : Client} → Reach c d → Step d e → Reach c e

-- The error that Shutdown returns, of those of the host, the DHT, the flush, the datastore and the
-- exchange; `none` is nil.
unfoldable pub shutdown_error {ℓ} :
    {E : Type ℓ} → Option E → Option E → Option E → Option E → Option E → Option E
shutdown_error (some e) dht_err f_err ds_err x_err = some e
shutdown_error none (some e) f_err ds_err x_err = some e
shutdown_error none none (some e) ds_err x_err = some e
shutdown_error none none none (some e) x_err = some e
shutdown_error none none none none x_err = x_err
