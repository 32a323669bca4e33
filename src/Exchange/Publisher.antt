-- ===== src/Exchange/Publisher.antt =====
-- exchange/ipni_publisher.go and hub_publisher.go: the publishers, whose loops are the same. The order
-- in which Go iterates over the set of links is not specified; no theorem depends on it.
pub mod Handed
pub mod Drained
mod Examples
use go_fula.Prelude.{
  ℕ, String, Bool, true, false, not, ◌&&◌, Option, none, some, List, [], ◌∷◌, ◌++◌, ltb,
  if◌then◌else◌, elem, length,
}

-- A link: whether it is a link of go-cid, and if it is, its cid, whether that is undefined, and
-- whether its hash is the identity.
pub data Link : Type 0 where
  nil_link other_link : Link
  cid_link : (cid : String) (undefined identity : Bool) → Link

-- The channel and what it can hold, the set of links that are not published, whether a publication
-- runs, those that run, the links of all that were begun, and whether the context is done.
pub record Publisher : Type 0 where
  pub capacity : ℕ
  pub buffer : List String
  pub unpublished : List String
  pub publishing : Bool
  pub running : List (List String)
  pub begun : List String
  pub cancelled : Bool

-- newIpniPublisher
unfoldable pub new_publisher : ℕ → Publisher
new_publisher capacity = record {
  capacity = capacity;
  buffer = [];
  unpublished = [];
  publishing = false;
  running = [];
  begun = [];
  cancelled = false;
}

-- unpublished[c] = struct{}{}
unfoldable pub insert : String → List String → List String
insert c links = if elem c links then links else c ∷ links

-- ipniPublisher.notifyReceivedLink: the cid that is sent.
unfoldable pub link_to_publish : Link → Option String
link_to_publish nil_link = none
link_to_publish other_link = none
link_to_publish (cid_link cid undefined identity) =
    if not undefined && not identity then some cid else none

-- hubPublisher.notifyReceivedLink
unfoldable pub hub_link_to_publish : Link → Option String
hub_link_to_publish l = none

unfoldable pub begin_publishing : List String → Publisher → Publisher
begin_publishing [] p = p
begin_publishing (c ∷ links) p = if p.publishing then p else record p {
  unpublished = [];
  publishing = true;
  running = (c ∷ links) ∷ p.running;
  begun = (c ∷ links) ++ p.begun;
}

unfoldable pub maybe_publish : Publisher → Publisher
unfolding begin_publishing
maybe_publish p = begin_publishing p.unpublished p

-- A cid comes out of the channel.
unfoldable pub received : List String → Publisher → Publisher
unfolding maybe_publish insert
received [] p = p
received (c ∷ rest) p =
    maybe_publish (record p { buffer = rest; unpublished = insert c p.unpublished })

unfoldable pub finish_first : List (List String) → Publisher → Publisher
finish_first [] p = p
finish_first (batch ∷ rest) p = record p { running = rest; publishing = false }

-- A send into the channel, which waits while it is full; a tick; a receive; the end of a publication,
-- with or without an error; and the end of the context.
pub data Event : Type 0 where
  sends : String → Event
  ticks receives finishes cancels : Event

unfoldable pub publisher_step : Event → Publisher → Publisher
unfolding maybe_publish received finish_first
publisher_step (sends c) p =
    if ltb (length p.buffer) p.capacity then record p { buffer = p.buffer ++ (c ∷ []) } else p
publisher_step ticks p = if p.cancelled then p else maybe_publish p
publisher_step receives p = if p.cancelled then p else received p.buffer p
publisher_step finishes p = finish_first p.running p
publisher_step cancels p = record p { cancelled = true }

unfoldable pub run_publisher : List Event → Publisher → Publisher
unfolding publisher_step
run_publisher [] p = p
run_publisher (e ∷ es) p = run_publisher es (publisher_step e p)
