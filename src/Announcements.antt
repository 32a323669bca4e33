-- ===== src/Announcements.antt =====
-- announcements/announcements.go: which messages of a pool's topic are valid, and what a device does
-- on a message.
pub mod Requests
mod Examples
use go_fula.Prelude.{
  ℕ, String, Bool, true, false, not, ◌&&◌, ◌||◌, Option, none, some, List, [], ◌∷◌, ◌++◌, ◌==◌,
  if◌then◌else◌,
}

-- AnnouncementType; the rest are the numbers without a name.
pub data AnnouncementType : Type 0 where
  unknown i_exist pool_join_request pool_join_approve new_manifest : AnnouncementType
  unnamed : ℕ → AnnouncementType

-- common.MemberStatus
pub data MemberStatus : Type 0 where
  unknown_member pending approved : MemberStatus

unfoldable pub is_approved : MemberStatus → Bool
is_approved approved = true
is_approved _ = false

unfoldable pub is_unknown : MemberStatus → Bool
is_unknown unknown_member = true
is_unknown _ = false

unfoldable pub validate_type : AnnouncementType → MemberStatus → Bool → Bool
unfolding is_approved is_unknown
validate_type new_manifest status exists = exists && is_approved status
validate_type pool_join_request status exists = not (is_unknown status)
validate_type pool_join_approve status exists = true
validate_type i_exist status exists = true
validate_type _ status exists = false

-- `none` is a message that UnmarshalBinary refuses.
unfoldable pub validate_announcement : Option AnnouncementType → MemberStatus → Bool → Bool
unfolding validate_type
validate_announcement none status exists = false
validate_announcement (some t) status exists = validate_type t status exists

-- A message: the sender, the type and the addresses, as far as they are decoded, and the topic.
pub record Message : Type 0 where
  pub sender : Option String
  pub announcement : Option (AnnouncementType × List String)
  pub topic : Option String

-- What sub.Next gives: a message, nothing, or an error, which ends the loop, as the end of the
-- context does.
pub data Next : Type 0 where
  message : Message → Next
  nothing failed context_done : Next

-- The addresses in the peer store, and the calls of HandlePoolJoinRequest with sender and topic.
pub record Effects : Type 0 where
  pub stored : List (String × List String)
  pub requests : List (String × String)

unfoldable pub onto_addrs : String → Option (List String) → Option (List String)
onto_addrs a none = none
onto_addrs a (some rest) = some (a ∷ rest)

-- multiaddr.NewMultiaddr succeeds.
module _ (is_multiaddr : String → Bool) (self : String) where
  -- `GetAddrs` of announcements/interface.go
  unfoldable pub get_addrs : List String → Option (List String)
  unfolding onto_addrs
  get_addrs [] = some []
  get_addrs (a ∷ rest) =
      let more = get_addrs rest in if is_multiaddr a then onto_addrs a more else none

  unfoldable pub process_announcement :
      String → AnnouncementType → List String → String → Effects → Effects
  process_announcement from i_exist addrs topic s = record s {
    stored = s.stored ++ ((from, addrs) ∷ []);
  }
  process_announcement from pool_join_request addrs topic s = record s {
    requests = s.requests ++ ((from, topic) ∷ []);
  }
  process_announcement from _ addrs topic s = s

  unfoldable pub with_topic :
      String → AnnouncementType → List String → Option String → Effects → Effects
  unfolding process_announcement
  with_topic from t addrs none s = s
  with_topic from t addrs (some topic) s = process_announcement from t addrs topic s

  unfoldable pub with_addrs :
      String → AnnouncementType → Option (List String) → Option String → Effects → Effects
  unfolding with_topic
  with_addrs from t none topic s = s
  with_addrs from t (some addrs) topic s = with_topic from t addrs topic s

  unfoldable pub with_announcement :
      String → Option (AnnouncementType × List String) → Option String → Effects → Effects
  unfolding with_addrs get_addrs
  with_announcement from none topic s = s
  with_announcement from (some (t, addrs)) topic s = with_addrs from t (get_addrs addrs) topic s

  unfoldable pub with_sender : Option String → Message → Effects → Effects
  unfolding with_announcement
  with_sender none m s = s
  with_sender (some from) m s =
      if from == self then s else with_announcement from m.announcement m.topic s

  unfoldable pub handle_announcements : List Next → Effects → Effects
  unfolding with_sender
  handle_announcements [] s = s
  handle_announcements (message m ∷ ms) s = handle_announcements ms (with_sender m.sender m s)
  handle_announcements (nothing ∷ ms) s = handle_announcements ms s
  handle_announcements (failed ∷ ms) s = s
  handle_announcements (context_done ∷ ms) s = s
