-- ===== src/Chat/Stream.antt =====
-- The StreamBuffer of blockchain/blox.go, and GetChatChunk of mobile/blockchain.go.
use go_fula.Prelude.{
  ℕ, zero, suc, Bool, true, false, Option, none, some, List, [], ◌∷◌, ◌++◌, ltb, length,
  if◌then◌else◌,
}
use go_fula.Evm.Hex.{Text}

-- The channel, of which `chunks` are its contents, and the fields `closed` and `err`; the channel is
-- closed when `closed` is set. `err` is whether it is an error.
pub record StreamBuffer : Type 0 where
  pub chunks : List Text
  pub closed : Bool
  pub err : Bool

abbrev pub capacity : ℕ
capacity = 100

unfoldable pub new_stream_buffer : StreamBuffer
new_stream_buffer = record { chunks = []; closed = false; err = false }

-- What a call of GetChunk gives: it waits, or it returns a chunk and whether there is an error.
pub data GotChunk : Type 0 where
  waiting : GotChunk
  returned : Text → Bool → GotChunk

unfoldable pub get_from : List Text → StreamBuffer → GotChunk × StreamBuffer
get_from [] b = (if b.closed then returned [] b.err else waiting, b)
get_from (c ∷ rest) b = (returned c false, record b { chunks = rest })

unfoldable pub get_chunk : StreamBuffer → GotChunk × StreamBuffer
unfolding get_from
get_chunk b = get_from b.chunks b

-- `none` is a call that waits for room, and holds the lock.
unfoldable pub add_chunk : Text → StreamBuffer → Option StreamBuffer
add_chunk c b =
    if b.closed
    then some b
    else if ltb (length b.chunks) capacity
    then some (record b { chunks = b.chunks ++ (c ∷ []) })
    else none

-- Close(err), for whether err is an error.
unfoldable pub close : Bool → StreamBuffer → StreamBuffer
close e b = if b.closed then b else record b { closed = true }

unfoldable pub is_closed : StreamBuffer → Bool
is_closed b = b.closed

-- What a call of GetChatChunk has done after some turns of its loop.
pub data ChatChunk : Type 0 where
  chunk : Text → ChatChunk
  failed : ChatChunk
  blocked : ChatChunk
  running : ChatChunk

unfoldable pub after_chunk :
    GotChunk × StreamBuffer → (ChatChunk × StreamBuffer) → ChatChunk × StreamBuffer
after_chunk (waiting, b) next = (blocked, b)
after_chunk (returned c true, b) next = (failed, b)
after_chunk (returned [] false, b) next = next
after_chunk (returned (x ∷ c) false, b) next = (chunk (x ∷ c), b)

-- GetChatChunk, for so many turns, on the buffer of a stream that is known.
unfoldable pub get_chat_chunk : ℕ → StreamBuffer → ChatChunk × StreamBuffer
unfolding get_chunk after_chunk
get_chat_chunk zero b = (running, b)
get_chat_chunk (suc turns) b = after_chunk (get_chunk b) (get_chat_chunk turns (get_chunk b).1)
