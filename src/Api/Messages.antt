-- ===== src/Api/Messages.antt =====
-- api/messages.ts
use traffic_service.Api.Http.{
  get, put, Request, Outcome, resolved, Fetch, ◌>>=◌, handle_response, check_response, auth_headers,
}
use traffic_service.Base.{Text, codes, Bool, Option, none, List, [], ◌++◌}

pub record Message : Type 0 where
  pub message_id : Text
  pub driver_id : Text
  pub booking_id : Text
  pub content : Text
  pub is_read : Bool
  pub created_at : Text

pub record FetchMessagesResponse : Type 0 where
  pub messages : List Message

unfoldable pub messages_request : Option Text → Request
messages_request token = record {
  method = get;
  url = codes "/api/messaging/messages";
  query = [];
  headers = auth_headers token;
  body = none;
}

unfoldable pub fetch_messages : Option Text → Fetch FetchMessagesResponse → Outcome (List Message)
unfolding messages_request handle_response
fetch_messages token fetch = do
  response ← fetch (messages_request token)
  answer ← handle_response response (codes "Failed to fetch messages")
  resolved answer.messages

unfoldable pub mark_request : Option Text → Text → Request
mark_request token message_id = record {
  method = put;
  url = codes "/api/messaging/messages/" ++ (message_id ++ codes "/read");
  query = [];
  headers = auth_headers token;
  body = none;
}

unfoldable pub mark_as_read : Option Text → Fetch (Unit {0}) → Text → Outcome (Unit {0})
unfolding mark_request check_response
mark_as_read token fetch message_id = do
  response ← fetch (mark_request token message_id)
  check_response response (codes "Failed to mark message as read")
