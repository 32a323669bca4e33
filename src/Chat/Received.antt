-- ===== src/Chat/Received.antt =====
-- What a phone receives of the chat of a device, from the chunks of the model to the client's buffer.
use go_fula.Prelude.{
  ℕ, Bool, true, false, Option, none, some, List, [], ◌∷◌, ◌++◌, ◌≡◌, ◌∙◌, refl, ap, map, eqb,
  if◌then◌else◌, ◌⊎◌, inl, inr,
}
use go_fula.Evm.Hex.{Text, has_prefix}
use go_fula.Chat.{
  stream_responses, written_chunk, held, Turn, line, eof, completion, receive, emitted, kept,
  last_chunk,
}

-- Chunks of the model that make up one object behind what is held back: the object parses with the
-- last of them and not before. Empty chunks may stand between them.
unfoldable pub Pieces : (Text → Option Text) → Text → List Text → Text → Type 0
Pieces content before [] c = ⊥
Pieces content before ([] ∷ ps) c = Pieces content before ps c
Pieces content before ((b ∷ p) ∷ ps) c =
    ((ps ≡ []) × (content (before ++ (b ∷ p)) ≡ some c))
    ⊎ ((content (before ++ (b ∷ p)) ≡ none) × Pieces content (before ++ (b ∷ p)) ps c)

unfoldable pub AllPieces : (Text → Option Text) → List (Text × List Text) → Type 0
AllPieces content [] = Unit
AllPieces content ((c, ps) ∷ rs) = Pieces content [] ps c × AllPieces content rs

-- The chunks of all the objects, and their texts.
unfoldable pub chunks_of : List (Text × List Text) → List Text
chunks_of [] = []
chunks_of ((c, ps) ∷ rs) = ps ++ chunks_of rs

unfoldable pub contents_of : List (Text × List Text) → List Text
contents_of [] = []
contents_of ((c, ps) ∷ rs) = c ∷ contents_of rs

unfoldable pub joined : List Text → Text
joined [] = []
joined (t ∷ ts) = t ++ joined ts

unfoldable pub NoNewline : Text → Type 0
NoNewline [] = Unit
NoNewline (b ∷ t) = (eqb b b'\n' ≡ false) × NoNewline t

-- A body, cut behind each newline, and its end.
unfoldable pub with_byte : ℕ → List Turn → List Turn
with_byte b [] = []
with_byte b (line l ∷ ts) = line (b ∷ l) ∷ ts
with_byte b (eof part ∷ ts) = eof (b ∷ part) ∷ ts
with_byte b (_ ∷ ts) = ts

unfoldable pub turns_of : Text → List Turn
turns_of [] = eof [] ∷ []
turns_of (b ∷ t) =
    let rest = turns_of t in if eqb b b'\n' then line (b ∷ []) ∷ rest else with_byte b rest

abbrev pub with_newline : (Text → Text) → Text → Text
with_newline shown c = shown c ++ (b'\n' ∷ [])

turns_of_line :
    (t rest : Text)
    → NoNewline t
    → turns_of ((t ++ (b'\n' ∷ [])) ++ rest) ≡ line (t ++ (b'\n' ∷ [])) ∷ turns_of rest
unfolding turns_of NoNewline with_byte
turns_of_line [] rest h = refl
turns_of_line (b ∷ t) rest h = rw (h.0) (ap (with_byte b) (turns_of_line t rest h.1))

module _ (content : Text → Option Text) (encode : Text → Text) where
  stream_one :
      (before : Text) (ps : List Text) (c : Text) (rest : List Text)
      → Pieces content before ps c
      → stream_responses content encode before (ps ++ rest)
        ≡ encode c ∷ stream_responses content encode [] rest
  unfolding Pieces stream_responses held written_chunk
  stream_one before [] c rest h = absurd h
  stream_one before ([] ∷ ps) c rest h = stream_one before ps c rest h
  stream_one before ((b ∷ p) ∷ ps) c rest (inl (last, whole)) = rw (last, whole) refl
  stream_one before ((b ∷ p) ∷ ps) c rest (inr (partial, more)) =
      rw partial (stream_one (before ++ (b ∷ p)) ps c rest more)

  stream_all :
      (rs : List (Text × List Text))
      → AllPieces content rs
      → stream_responses content encode [] (chunks_of rs) ≡ map encode (contents_of rs)
  unfolding AllPieces chunks_of contents_of stream_responses
  stream_all [] h = refl
  stream_all ((c, ps) ∷ rs) h =
      stream_one [] ps c (chunks_of rs) h.0 ∙ ap (λ ts. encode c ∷ ts) (stream_all rs h.1)

module _ (is_json : Text → Bool) (shown : Text → Text)
    (whole : (c : Text) → is_json (with_newline shown c) ≡ true)
    (no_end : (c : Text) → has_prefix (with_newline shown c) completion ≡ false)
    (one_line : (c : Text) → NoNewline (shown c)) where
  receive_all :
      (cs : List Text)
      → receive is_json [] (turns_of (joined (map (with_newline shown) cs)))
        ≡ map (with_newline shown) cs
  unfolding joined receive last_chunk turns_of
  receive_all [] = refl
  receive_all (c ∷ cs) =
      let rest = joined (map (with_newline shown) cs) in
      ap (receive is_json []) (turns_of_line (shown c) rest (one_line c))
      ∙ unfold emitted kept in rw (no_end c, whole c, receive_all cs) refl

  -- If the model's chunks make up objects, each of which parses with the last of its chunks and not
  -- before, and the JSON of a response has no newline, parses with the newline behind it and does not
  -- begin with the completion marker: what ChatWithAI adds to its buffer, reading the body of
  -- handleChatWithAI up to newlines, are the responses with the texts of the objects, one by one.
  pub receive-contents_of :
      (content : Text → Option Text) (rs : List (Text × List Text))
      → AllPieces content rs
      → receive is_json []
          (turns_of (joined (stream_responses content (with_newline shown) [] (chunks_of rs))))
        ≡ map (with_newline shown) (contents_of rs)
  receive-contents_of content rs h =
      ap (λ ts. receive is_json [] (turns_of (joined ts)))
        (stream_all content (with_newline shown) rs h)
      ∙ receive_all (contents_of rs)
