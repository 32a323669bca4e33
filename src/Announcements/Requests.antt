-- ===== src/Announcements/Requests.antt =====
-- The join requests that reach the handler.
use go_fula.Prelude.{
  String, ◌≡◌, ◌∙◌, refl, sym, ap, Bool, true, ◌&&◌, Option, none, some, List, [], ◌∷◌, ◌++◌, ◌==◌,
  if◌then◌else◌, is_some, Bool-cases, inl, inr,
}
use mathlib.Core.List.{append-nil, append_assoc}
use go_fula.Announcements.{
  onto_addrs, AnnouncementType, unknown, i_exist, pool_join_request, pool_join_approve,
  new_manifest, unnamed, Message, Next, message, nothing, failed, context_done, Effects, get_addrs,
  process_announcement, with_topic, with_addrs, with_announcement, with_sender,
  handle_announcements,
}

module _ (is_multiaddr : String → Bool) (self : String) where
  -- Every text is an address.
  unfoldable pub all_addrs : List String → Bool
  all_addrs [] = true
  all_addrs (a ∷ rest) = is_multiaddr a && all_addrs rest

  -- The request in a message of another device, if the addresses are whole and there is a topic.
  unfoldable pub reaches : String → Bool → AnnouncementType → Option String → List (String × String)
  reaches from true pool_join_request (some topic) = (from, topic) ∷ []
  reaches from _ _ _ = []

  unfoldable pub request_in :
      Option String
      → Option (AnnouncementType × List String)
      → Option String
      → List (String × String)
  unfolding all_addrs reaches
  request_in none a topic = []
  request_in (some from) none topic = []
  request_in (some from) (some (t, addrs)) topic =
      if from == self then [] else reaches from (all_addrs addrs) t topic

  -- The requests of the messages before the loop ends.
  unfoldable pub requests_of : List Next → List (String × String)
  unfolding request_in
  requests_of [] = []
  requests_of (message m ∷ ms) = request_in m.sender m.announcement m.topic ++ requests_of ms
  requests_of (nothing ∷ ms) = requests_of ms
  requests_of (failed ∷ ms) = []
  requests_of (context_done ∷ ms) = []

  onto_some : (a : String) (o : Option (List String)) → is_some (onto_addrs a o) ≡ is_some o
  unfolding onto_addrs
  onto_some a none = refl
  onto_some a (some r) = refl

  get_addrs-all_addrs : (l : List String) → is_some (get_addrs is_multiaddr self l) ≡ all_addrs l
  unfolding get_addrs all_addrs onto_addrs
  get_addrs-all_addrs [] = refl
  get_addrs-all_addrs (a ∷ l) = elim (Bool-cases (is_multiaddr a)) [
    | inr e ↦ rw e refl
    | inl e ↦ rw e (onto_some a (get_addrs is_multiaddr self l) ∙ get_addrs-all_addrs l)
  ]

  addrs_requests :
      (from : String) (t : AnnouncementType) (g : Option (List String)) (o : Option String)
      (s : Effects)
      → (with_addrs is_multiaddr self from t g o s).requests
        ≡ s.requests ++ reaches from (is_some g) t o
  unfolding with_addrs with_topic process_announcement reaches
  addrs_requests from t none o s = sym (append-nil s.requests)
  addrs_requests from unknown (some g) none s = sym (append-nil s.requests)
  addrs_requests from unknown (some g) (some topic) s = sym (append-nil s.requests)
  addrs_requests from i_exist (some g) none s = sym (append-nil s.requests)
  addrs_requests from i_exist (some g) (some topic) s = sym (append-nil s.requests)
  addrs_requests from pool_join_request (some g) none s = sym (append-nil s.requests)
  addrs_requests from pool_join_request (some g) (some topic) s = refl
  addrs_requests from pool_join_approve (some g) none s = sym (append-nil s.requests)
  addrs_requests from pool_join_approve (some g) (some topic) s = sym (append-nil s.requests)
  addrs_requests from new_manifest (some g) none s = sym (append-nil s.requests)
  addrs_requests from new_manifest (some g) (some topic) s = sym (append-nil s.requests)
  addrs_requests from (unnamed n) (some g) none s = sym (append-nil s.requests)
  addrs_requests from (unnamed n) (some g) (some topic) s = sym (append-nil s.requests)

  announced :
      (from : String) (a : Option (AnnouncementType × List String)) (o : Option String)
      (s : Effects)
      → (if from == self then s else with_announcement is_multiaddr self from a o s).requests
        ≡ s.requests ++ request_in (some from) a o
  unfolding with_announcement request_in
  announced from none o s = elim (Bool-cases (from == self)) [
    | inl e ↦ rw e (sym (append-nil s.requests))
    | inr e ↦ rw e (sym (append-nil s.requests))
  ]
  announced from (some (t, addrs)) o s = elim (Bool-cases (from == self)) [
    | inl e ↦ rw e (sym (append-nil s.requests))
    | inr e ↦
        rw (e, ← get_addrs-all_addrs addrs)
          (addrs_requests from t (get_addrs is_multiaddr self addrs) o s)
  ]

  message_requests :
      (from : Option String) (m : Message) (s : Effects)
      → m.sender ≡ from
      → (with_sender is_multiaddr self from m s).requests
        ≡ s.requests ++ request_in from m.announcement m.topic
  unfolding with_sender request_in
  message_requests none m s e = sym (append-nil s.requests)
  message_requests (some from) m s e = announced from m.announcement m.topic s

  -- The calls of HandlePoolJoinRequest are, in the order of the messages, those of the join requests
  -- of other devices that have a topic and whose addresses are whole, up to the end of the loop.
  pub handle_announcements-requests :
      (ms : List Next) (s : Effects)
      → (handle_announcements is_multiaddr self ms s).requests ≡ s.requests ++ requests_of ms
  unfolding handle_announcements requests_of
  handle_announcements-requests [] s = sym (append-nil s.requests)
  handle_announcements-requests (message m ∷ ms) s =
      handle_announcements-requests ms (with_sender is_multiaddr self m.sender m s)
      ∙ ap (λ l. l ++ requests_of ms) (message_requests m.sender m s refl)
      ∙ append_assoc s.requests (request_in m.sender m.announcement m.topic) (requests_of ms)
  handle_announcements-requests (nothing ∷ ms) s = handle_announcements-requests ms s
  handle_announcements-requests (failed ∷ ms) s = sym (append-nil s.requests)
  handle_announcements-requests (context_done ∷ ms) s = sym (append-nil s.requests)
