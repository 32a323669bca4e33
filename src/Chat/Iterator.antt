-- ===== src/Chat/Iterator.antt =====
-- The StreamIterator of mobile/stream_iter.go. Each call is one step.
pub mod Panics
use go_fula.Prelude.{
  Bool, true, false, ◌&&◌, ◌||◌, Option, none, some, List, [], ◌∷◌, ◌++◌, ◌≡◌, refl, sym, subst,
  ltb, length, if◌then◌else◌,
}
use go_fula.Evm.Hex.{Text}
use go_fula.Chat.Stream.{StreamBuffer, add_chunk, close, capacity}

-- An iterator, its buffer, and the chunks of goroutines of HasNext that are not yet sent back.
pub record StreamIterator : Type 0 where
  pub buffer : StreamBuffer
  pub completed : Bool
  pub peeked : List Text

unfoldable pub new_stream_iterator : StreamBuffer → StreamIterator
new_stream_iterator b = record { buffer = b; completed = false; peeked = [] }

-- A receive from a closed channel gives the empty string.
unfoldable pub peek : List Text → StreamIterator → Bool × StreamIterator
peek [] i =
    if i.buffer.closed then (true, record i { peeked = i.peeked ++ ([] ∷ []) }) else (true, i)
peek (c ∷ rest) i =
    (true, record i { buffer = record i.buffer { chunks = rest }; peeked = i.peeked ++ (c ∷ []) })

unfoldable pub has_next : StreamIterator → Bool × StreamIterator
unfolding peek
has_next i = if i.completed then (false, i) else peek i.buffer.chunks i

-- What Next returns: a chunk, io.EOF, or the empty string after the timeout.
pub data NextChunk : Type 0 where
  next_chunk : Text → NextChunk
  eof : NextChunk
  timed_out : NextChunk

unfoldable pub next_from : List Text → StreamIterator → NextChunk × StreamIterator
next_from [] i = if i.buffer.closed then (eof, record i { completed = true }) else (timed_out, i)
next_from (c ∷ rest) i = (next_chunk c, record i { buffer = record i.buffer { chunks = rest } })

unfoldable pub next : StreamIterator → NextChunk × StreamIterator
unfolding next_from
next i = next_from i.buffer.chunks i

unfoldable pub is_empty : List Text → Bool
is_empty [] = true
is_empty (c ∷ rest) = false

unfoldable pub is_complete : StreamIterator → Bool
unfolding is_empty
is_complete i = i.completed || (i.buffer.closed && is_empty i.buffer.chunks)

-- A goroutine of HasNext goes on: `none` is a send on a closed channel, which panics. It waits while
-- the channel is full.
unfoldable pub send_back : List Text → StreamIterator → Option StreamIterator
send_back [] i = some i
send_back (c ∷ rest) i =
    if i.buffer.closed
    then none
    else if ltb (length i.buffer.chunks) capacity
    then some (record i {
      buffer = record i.buffer { chunks = i.buffer.chunks ++ (c ∷ []) };
      peeked = rest;
    })
    else some i

pub data Event : Type 0 where
  added : Text → Event
  closed_with : Bool → Event
  asked : Event
  taken : Event
  sent_back : Event

unfoldable pub with_added : StreamIterator → Option StreamBuffer → StreamIterator
with_added i none = i
with_added i (some b) = record i { buffer = b }

-- `none` is a panic, which ends the program. Close of an iterator is that of its buffer.
unfoldable pub step : Event → StreamIterator → Option StreamIterator
unfolding with_added add_chunk close has_next next send_back
step (added c) i = some (with_added i (add_chunk c i.buffer))
step (closed_with e) i = some (record i { buffer = close e i.buffer })
step asked i = some (has_next i).1
step taken i = some (next i).1
step sent_back i = send_back i.peeked i

unfoldable pub run : List Event → Option StreamIterator → Option StreamIterator
unfolding step
run [] o = o
run (e ∷ rest) none = none
run (e ∷ rest) (some i) = run rest (step e i)
