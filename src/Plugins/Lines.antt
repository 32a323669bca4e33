-- ===== src/Plugins/Lines.antt =====
-- Lists of lines, written and read back.
use go_fula.Prelude.{
  ℕ, false, List, [], ◌∷◌, ◌++◌, eqb, All, ◌≡◌, refl, ap, ◌∙◌, inl, inr, Bool-cases,
}
use go_fula.Evm.Hex.{Text}
use go_fula.Evm.Abi.{text_eq}
use go_fula.Plugins.{onto, split_lines, join_lines, contains, without}

-- A text on one line.
abbrev pub OneLine : Text → Type 0
OneLine w = All (λ c. eqb c b'\n' ≡ false) w

split_lines-line : (w : Text) → OneLine w → split_lines w ≡ w ∷ []
unfolding split_lines
split_lines-line [] h = refl
split_lines-line (c ∷ w) h = rw (split_lines-line w h.1, h.0) refl

split_lines-append : (w s : Text) → OneLine w → split_lines (w ++ (b'\n' ∷ s)) ≡ w ∷ split_lines s
unfolding split_lines
split_lines-append [] s h = refl
split_lines-append (c ∷ w) s h = rw (split_lines-append w s h.1, h.0) refl

-- A list of lines, written and read again.
pub split_lines-join_lines :
    (w : Text) (ws : List Text)
    → OneLine w
    → All OneLine ws
    → split_lines (join_lines (w ∷ ws)) ≡ w ∷ ws
unfolding join_lines
split_lines-join_lines w [] h k = split_lines-line w h
split_lines-join_lines w (v ∷ ws) h k =
    split_lines-append w (join_lines (v ∷ ws)) h
    ∙ ap (λ x. w ∷ x) (split_lines-join_lines v ws k.0 k.1)

onto-OneLine :
    (c : ℕ) (ws : List Text) → eqb c b'\n' ≡ false → All OneLine ws → All OneLine (onto c ws)
unfolding onto
onto-OneLine c [] h k = ((h, tt), tt)
onto-OneLine c (w ∷ ws) h k = ((h, k.0), k.1)

pub split_lines-OneLine : (s : Text) → All OneLine (split_lines s)
unfolding split_lines
split_lines-OneLine [] = (tt, tt)
split_lines-OneLine (c ∷ s) = elim (Bool-cases (eqb c b'\n')) [
  | inl e ↦ rw e (tt, split_lines-OneLine s)
  | inr e ↦ rw e (onto-OneLine c (split_lines s) e (split_lines-OneLine s))
]

pub without-OneLine :
    (name : Text) (ws : List Text) → All OneLine ws → All OneLine (without name ws)
unfolding without
without-OneLine name [] h = tt
without-OneLine name (w ∷ ws) h = elim (Bool-cases (text_eq w name)) [
  | inl e ↦ rw e (without-OneLine name ws h.1)
  | inr e ↦ rw e (h.0, without-OneLine name ws h.1)
]

pub append-OneLine :
    (name : Text) (ws : List Text) → All OneLine ws → OneLine name → All OneLine (ws ++ (name ∷ []))
append-OneLine name [] h k = (k, tt)
append-OneLine name (w ∷ ws) h k = (h.0, append-OneLine name ws h.1 k)

pub contains-without : (name : Text) (ws : List Text) → contains name (without name ws) ≡ false
unfolding contains without
contains-without name [] = refl
contains-without name (w ∷ ws) = elim (Bool-cases (text_eq w name)) [
  | inl e ↦ rw e (contains-without name ws)
  | inr e ↦ rw (e, e) (contains-without name ws)
]

pub still_without :
    (name : Text) (ws : List Text)
    → text_eq [] name ≡ false
    → contains name ws ≡ false
    → contains name (elim ws [ [] ↦ [] ∷ [] | w ∷ rest ↦ w ∷ rest ]) ≡ false
unfolding contains
still_without name [] named h = rw named refl
still_without name (w ∷ ws) named h = h
