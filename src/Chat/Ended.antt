-- ===== src/Chat/Ended.antt =====
-- GetChatChunk on a stream, and at its end.
use go_fula.Prelude.{
  ℕ, zero, suc, Bool, true, false, Option, none, some, List, [], ◌∷◌, ◌++◌, ◌≡◌, refl, sym, subst,
  length, ◌∙◌, arith,
}
use go_fula.Evm.Hex.{Text}
use go_fula.Chat.Stream.{
  StreamBuffer, new_stream_buffer, GotChunk, waiting, returned, get_from, get_chunk, add_chunk,
  close, ChatChunk, chunk, running, after_chunk, get_chat_chunk,
}

-- The calls on a buffer: AddChunk, Close, GetChunk and GetChatChunk for some turns. An AddChunk that
-- waits for room has no effect yet.
pub data Call : Type 0 where
  add : Text → Call
  end : Bool → Call
  get : Call
  poll : ℕ → Call

unfoldable pub added : StreamBuffer → Option StreamBuffer → StreamBuffer
added b none = b
added b (some later) = later

unfoldable pub apply : Call → StreamBuffer → StreamBuffer
unfolding added
apply (add c) b = added b (add_chunk c b)
apply (end e) b = close e b
apply get b = (get_chunk b).1
apply (poll turns) b = (get_chat_chunk turns b).1

unfoldable pub apply_all : List Call → StreamBuffer → StreamBuffer
unfolding apply
apply_all [] b = b
apply_all (c ∷ rest) b = apply_all rest (apply c b)

unfoldable pub AllEmpty : List Text → Type 0
AllEmpty [] = Unit
AllEmpty (c ∷ rest) = (c ≡ []) × AllEmpty rest

get_from_err : (chunks : List Text) (b : StreamBuffer) → (get_from chunks b).1.err ≡ b.err
unfolding get_from
get_from_err [] b = refl
get_from_err (c ∷ rest) b = refl

get_chunk_err : (b : StreamBuffer) → (get_chunk b).1.err ≡ b.err
unfolding get_chunk
get_chunk_err b = get_from_err b.chunks b

add_chunk_err : (c : Text) (b : StreamBuffer) → (added b (add_chunk c b)).err ≡ b.err
unfolding add_chunk added
add_chunk_err c b = ground arith

close_err : (e : Bool) (b : StreamBuffer) → (close e b).err ≡ b.err
unfolding close
close_err e b = ground arith

after_chunk_err :
    (g : GotChunk) (b d : StreamBuffer) (next : ChatChunk × StreamBuffer)
    → b.err ≡ d.err
    → next.1.err ≡ d.err
    → (after_chunk (g, b) next).1.err ≡ d.err
unfolding after_chunk
after_chunk_err waiting b d next h k = h
after_chunk_err (returned c true) b d next h k = h
after_chunk_err (returned [] false) b d next h k = k
after_chunk_err (returned (x ∷ c) false) b d next h k = h

get_chat_chunk_err : (turns : ℕ) (b : StreamBuffer) → (get_chat_chunk turns b).1.err ≡ b.err
unfolding get_chat_chunk
get_chat_chunk_err zero b = refl
get_chat_chunk_err (suc turns) b =
    after_chunk_err (get_chunk b).0 (get_chunk b).1 b (get_chat_chunk turns (get_chunk b).1)
      (get_chunk_err b) (get_chat_chunk_err turns (get_chunk b).1 ∙ get_chunk_err b)

apply_err : (c : Call) (b : StreamBuffer) → (apply c b).err ≡ b.err
unfolding apply
apply_err (add c) b = add_chunk_err c b
apply_err (end e) b = close_err e b
apply_err get b = get_chunk_err b
apply_err (poll turns) b = get_chat_chunk_err turns b

apply_all_err : (cs : List Call) (b : StreamBuffer) → (apply_all cs b).err ≡ b.err
unfolding apply_all
apply_all_err [] b = refl
apply_all_err (c ∷ rest) b = apply_all_err rest (apply c b) ∙ apply_err c b

-- A chunk that is not empty, behind chunks that are, is returned after as many turns as there are
-- of these and one more, and what stands behind it stays.
pub get_chat_chunk-chunk :
    (empties : List Text) (x : ℕ) (c : Text) (rest : List Text) (closed err : Bool)
    → AllEmpty empties
    → get_chat_chunk
        (suc (length empties))
        (record { chunks = empties ++ ((x ∷ c) ∷ rest); closed = closed; err = err })
      ≡ (chunk (x ∷ c), record { chunks = rest; closed = closed; err = err })
unfolding get_chat_chunk get_chunk get_from after_chunk AllEmpty
get_chat_chunk-chunk [] x c rest closed err e = refl
get_chat_chunk-chunk ([] ∷ ts) x c rest closed err (e, es) =
    get_chat_chunk-chunk ts x c rest closed err es
get_chat_chunk-chunk ((y ∷ t) ∷ ts) x c rest closed err (e, es) = absurd (cc e)

spins :
    (turns : ℕ) (chunks : List Text)
    → AllEmpty chunks
    → (get_chat_chunk turns (record { chunks = chunks; closed = true; err = false })).0 ≡ running
unfolding get_chat_chunk get_chunk get_from after_chunk AllEmpty
spins zero chunks e = refl
spins (suc turns) [] e = spins turns [] tt
spins (suc turns) ([] ∷ ts) (e, es) = spins turns ts es
spins (suc turns) ((y ∷ t) ∷ ts) (e, es) = absurd (cc e)

at_end :
    (turns : ℕ) (b : StreamBuffer)
    → b.closed ≡ true
    → b.err ≡ false
    → AllEmpty b.chunks
    → (get_chat_chunk turns b).0 ≡ running
at_end turns b closed fine e =
    subst
      (λ c.
        (get_chat_chunk turns (record { chunks = b.chunks; closed = c; err = b.err })).0 ≡ running)
      (sym closed)
      (subst
        (λ f.
          (get_chat_chunk turns (record { chunks = b.chunks; closed = true; err = f })).0 ≡ running)
        (sym fine) (spins turns b.chunks e))

-- On a stream that is closed, also with an error, and has no chunk left that is not empty, whatever
-- calls led there, GetChatChunk never returns: it runs after any number of turns.
pub get_chat_chunk-running :
    (cs : List Call) (turns : ℕ)
    → (apply_all cs new_stream_buffer).closed ≡ true
    → AllEmpty (apply_all cs new_stream_buffer).chunks
    → (get_chat_chunk turns (apply_all cs new_stream_buffer)).0 ≡ running
unfolding new_stream_buffer
get_chat_chunk-running cs turns closed e =
    at_end turns (apply_all cs new_stream_buffer) closed (apply_all_err cs new_stream_buffer) e
