-- ===== src/Chat.antt =====
-- The chat with a model, from the device to the phone: handleChatWithAI and ChatWithAI of
-- blockchain/blox.go. A text is the list of its bytes.
pub mod Stream
pub mod Ended
pub mod Iterator
pub mod Received
mod Examples
use go_fula.Prelude.{
  String, Bool, true, false, Option, none, some, List, [], ◌∷◌, ◌++◌, ◌⊎◌, inl, inr, if◌then◌else◌,
}
use go_fula.Evm.Hex.{Text, codes, has_prefix}

-- The chunks that come from the model: `content` is the text of the choices of a chunk that is
-- whole, and `encode` the response with its newline.
module _ (content : Text → Option Text) (encode : Text → Text) where
  -- What is held back for the next chunk, and what is written for this one.
  unfoldable pub held : Text → Option Text → Text
  held buffer none = buffer
  held buffer (some c) = []

  unfoldable pub written_chunk : Option Text → List Text
  written_chunk none = []
  written_chunk (some c) = encode c ∷ []

  -- The loop, on the chunks up to the end of the channel or of the context; a chunk that is empty is
  -- skipped.
  unfoldable pub stream_responses : Text → List Text → List Text
  unfolding held written_chunk
  stream_responses buffer [] = []
  stream_responses buffer ([] ∷ rest) = stream_responses buffer rest
  stream_responses buffer ((c ∷ chunk) ∷ rest) =
      let whole = content (buffer ++ (c ∷ chunk)) in
      written_chunk whole ++ stream_responses (held (buffer ++ (c ∷ chunk)) whole) rest

pub record ChatWithAiRequest : Type 0 where
  pub ai_model : Text
  pub user_message : Text

-- A body without the status 200, or the parts of a body with it. After the status is written,
-- http.Error only adds its text to the body.
pub data ChatReply : Type 0 where
  bad_request : ChatReply
  streamed : List Text → ChatReply

module _ (content : Text → Option Text) (encode : Text → Text) (flusher : Bool)
    (fetch_ai_response : Text → Text → Text ⊎ List Text) where
  answer_chat : Text ⊎ List Text → ChatReply
  answer_chat (inl e) =
      streamed ((codes "Error fetching AI response: " ++ (e ++ (b'\n' ∷ []))) ∷ [])
  answer_chat (inr chunks) = streamed (stream_responses content encode [] chunks)

  -- `none` is a request that cannot be decoded.
  unfoldable pub handle_chat_with_ai : Option ChatWithAiRequest → ChatReply
  unfolding answer_chat
  handle_chat_with_ai none = bad_request
  handle_chat_with_ai (some r) =
      if flusher
      then answer_chat (fetch_ai_response r.ai_model r.user_message)
      else streamed ((codes "Streaming not supported" ++ (b'\n' ∷ [])) ∷ [])

-- What a turn of the client's loop finds: a line, the end with what stands behind the last newline,
-- an error, or the end of the context.
pub data Turn : Type 0 where
  line : Text → Turn
  eof : Text → Turn
  broken : Turn
  cancelled : Turn

abbrev completion : Text
completion = codes "!COMPLETION!"

-- `is_json` is json.Unmarshal on what has come since the last chunk.
module _ (is_json : Text → Bool) where
  unfoldable pub emitted : Text → List Text
  emitted accum = if is_json accum then accum ∷ [] else []

  unfoldable pub kept : Text → Text
  kept accum = if is_json accum then [] else accum

  unfoldable pub last_chunk : Text → List Text
  last_chunk [] = []
  last_chunk (c ∷ accum) = (c ∷ accum) ∷ []

  -- The calls of AddChunk, up to the end of the loop.
  unfoldable pub receive : Text → List Turn → List Text
  unfolding emitted kept last_chunk
  receive accum [] = []
  receive accum (line l ∷ rest) =
      let later = receive (kept (accum ++ l)) rest in
      if has_prefix l completion then [] else emitted (accum ++ l) ++ later
  receive accum (eof part ∷ rest) = last_chunk accum
  receive accum (broken ∷ rest) = []
  receive accum (cancelled ∷ rest) = []
