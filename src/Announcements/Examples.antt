-- ===== src/Announcements/Examples.antt =====
-- Concrete messages.
use go_fula.Prelude.{◌≡◌, refl, true, some, List, [], ◌∷◌, ◌++◌}
use go_fula.Announcements.{
  pool_join_request, Message, Next, message, failed, Effects, handle_announcements,
}
use go_fula.Announcements.Requests.{requests_of, handle_announcements-requests}

abbrev from_friend : Message
from_friend = record {
  sender = some "friend";
  announcement = some (pool_join_request, "addr" ∷ []);
  topic = some "7";
}

abbrev messages : List Next
messages = message from_friend ∷ failed ∷ message from_friend ∷ []

abbrev start : Effects
start = record { stored = []; requests = [] }

handle_announcements-requests_example :
    (handle_announcements (λ a. true) "self" messages start).requests
    ≡ [] ++ requests_of (λ a. true) "self" messages
handle_announcements-requests_example =
    handle_announcements-requests (λ a. true) "self" messages start

requests_test :
    (handle_announcements (λ a. true) "self" messages start).requests ≡ ("friend", "7") ∷ []
unfolding handle_announcements
requests_test = refl
