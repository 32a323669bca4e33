-- ===== src/Chat/Examples.antt =====
-- A chat in two chunks, its end, and an iterator that looks at the end.
use go_fula.Prelude.{
  Bool, true, false, Option, none, some, List, [], ◌∷◌, ◌++◌, ◌≡◌, refl, map, eqb, if◌then◌else◌,
  Bool-cases, inl, inr,
}
use go_fula.Evm.Hex.{Text, codes, has_prefix}
use go_fula.Chat.{stream_responses, receive}
use go_fula.Chat.Received.{
  Pieces, AllPieces, chunks_of, contents_of, joined, NoNewline, turns_of, with_newline,
  receive-contents_of,
}
use go_fula.Chat.Stream.{StreamBuffer, new_stream_buffer, ChatChunk, chunk, running, get_chat_chunk}
use go_fula.Chat.Ended.{
  Call, add, end, poll, apply_all, AllEmpty, get_chat_chunk-chunk, get_chat_chunk-running,
}
use go_fula.Chat.Iterator.{StreamIterator, has_next, taken, asked, sent_back, run}
use go_fula.Chat.Iterator.Panics.{has_next-Doomed}

-- Objects stand between braces, with their newlines as spaces, in these chunks.
abbrev flat : Text → Text
flat [] = b'}' ∷ []
flat (b ∷ t) = let rest = flat t in if eqb b b'\n' then b' ' ∷ rest else b ∷ rest

abbrev json_of : Text → Text
json_of c = b'{' ∷ flat c

flat-NoNewline : (c : Text) → NoNewline (flat c)
unfolding NoNewline
flat-NoNewline [] = (refl, tt)
flat-NoNewline (b ∷ t) = elim (Bool-cases (eqb b b'\n')) [
  | inl e ↦ rw e (refl, flat-NoNewline t)
  | inr e ↦ rw e (e, flat-NoNewline t)
]

json_of-NoNewline : (c : Text) → NoNewline (json_of c)
unfolding NoNewline
json_of-NoNewline c = (refl, flat-NoNewline c)

abbrev is_json : Text → Bool
is_json t = has_prefix t (b'{' ∷ [])

abbrev content : Text → Option Text
content [] = none
content (c ∷ []) = none
content (c ∷ (d ∷ t)) = some (c ∷ (d ∷ t))

abbrev responses : List (Text × List Text)
responses =
    (codes "Hi", codes "H" ∷ ([] ∷ (codes "i" ∷ []))) ∷ ((codes "you", codes "you" ∷ []) ∷ [])

two_responses :
    stream_responses content (with_newline json_of) [] (chunks_of responses)
    ≡ codes "{Hi}\n" ∷ (codes "{you}\n" ∷ [])
unfolding stream_responses chunks_of
two_responses = refl

responses-AllPieces : AllPieces content responses
unfolding AllPieces Pieces
responses-AllPieces = ((inr (refl, inl (refl, refl))), (inl (refl, refl), tt))

receive-contents_of_example :
    receive is_json []
      (turns_of (joined (stream_responses content (with_newline json_of) [] (chunks_of responses))))
    ≡ map (with_newline json_of) (contents_of responses)
unfolding has_prefix
receive-contents_of_example =
    receive-contents_of is_json json_of (λ c. refl) (λ c. refl) json_of-NoNewline content responses
      responses-AllPieces

get_chat_chunk-chunk_test :
    get_chat_chunk 2
      (record { chunks = [] ∷ (codes "Hi" ∷ (codes "you" ∷ [])); closed = true; err = false })
    ≡ (chunk (codes "Hi"), record { chunks = codes "you" ∷ []; closed = true; err = false })
unfolding AllEmpty
get_chat_chunk-chunk_test =
    get_chat_chunk-chunk ([] ∷ []) b'H' (codes "i") (codes "you" ∷ []) true false (refl, tt)

abbrev calls : List Call
calls = add (codes "Hi") ∷ (poll 1 ∷ (end true ∷ []))

get_chat_chunk-running_example : (get_chat_chunk 9 (apply_all calls new_stream_buffer)).0 ≡ running
unfolding apply_all AllEmpty go_fula.Chat.Stream.close get_chat_chunk go_fula.Chat.Stream.add_chunk
    new_stream_buffer
get_chat_chunk-running_example = get_chat_chunk-running calls 9 refl tt

abbrev ended : StreamIterator
ended = record {
  buffer = record { chunks = codes "Hi" ∷ []; closed = true; err = false };
  completed = false;
  peeked = [];
}

has_next-Doomed_example :
    run ((taken ∷ (asked ∷ [])) ++ (sent_back ∷ [])) (some (has_next ended).1) ≡ none
has_next-Doomed_example = has_next-Doomed ended (taken ∷ (asked ∷ [])) refl refl
