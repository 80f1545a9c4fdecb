-- ===== src/Stream/Frames/Laws.antt =====
-- How the line buffer depends on the chunks.
use toolkit_inference_mesh.Common.{
  Bool-cases, concat, ℕ, ◌≡◌, refl, sym, ap, ◌∙◌, inl, inr, Bool, true, false, List, [], ◌∷◌, ◌++◌,
  append-nil, arith, append_assoc,
}
use toolkit_inference_mesh.Js.Text.{Text, push_head, split}
use toolkit_inference_mesh.Stream.Frames.{is_newline, pop, frame, frames}

pub split-cons :
    (sep : ℕ → Bool) (s : Text) → (l : Text) × (ls : List Text) × (split sep s ≡ l ∷ ls)
unfolding split
split-cons sep [] = ([], [], refl)
split-cons sep (c ∷ s) =
    let (l, ls, e) = split-cons sep s in
    elim (Bool-cases (sep c)) [ inl y ↦ ([], l ∷ ls, rw (y, e)) | inr n ↦ (c ∷ l, ls, rw (n, e)) ]

-- What `split` makes of one more character in front.
abbrev extend : Bool → ℕ → List Text → List Text
extend true c parts = [] ∷ parts
extend false c parts = push_head c parts

split-extend :
    (sep : ℕ → Bool) (c : ℕ) (s : Text) → split sep (c ∷ s) ≡ extend (sep c) c (split sep s)
unfolding split
split-extend sep c s = ground arith

push_head-append :
    (sep : ℕ → Bool) (c : ℕ)
    → sep c ≡ false
    → (t l : Text) (ls : List Text)
    → push_head c ((pop (l ∷ ls)).0 ++ split sep ((pop (l ∷ ls)).1 ++ t))
      ≡ (pop ((c ∷ l) ∷ ls)).0 ++ split sep ((pop ((c ∷ l) ∷ ls)).1 ++ t)
push_head-append sep c n t l [] = sym (split-extend sep c (l ++ t) ∙ rw n)
push_head-append sep c n t l (m ∷ ms) = refl

extend-append :
    (sep : ℕ → Bool) (c : ℕ) (t l : Text) (ls : List Text)
    → extend (sep c) c ((pop (l ∷ ls)).0 ++ split sep ((pop (l ∷ ls)).1 ++ t))
      ≡ (pop (extend (sep c) c (l ∷ ls))).0 ++ split sep ((pop (extend (sep c) c (l ∷ ls))).1 ++ t)
extend-append sep c t l ls = elim (Bool-cases (sep c)) [
  | inl y ↦ rw y
  | inr n ↦ rw n (push_head-append sep c n t l ls)
]

-- Splitting a text that goes on: the complete lines stay, and only the last part is split again.
pub split-append :
    (sep : ℕ → Bool) (s t : Text)
    → split sep (s ++ t) ≡ (pop (split sep s)).0 ++ split sep ((pop (split sep s)).1 ++ t)
split-append sep [] t = unfold split in refl
split-append sep (c ∷ s) t =
    let (l, ls, e) = split-cons sep s in
    split-extend sep c (s ++ t)
    ∙ ap (extend (sep c) c) (split-append sep s t)
    ∙ rw (split-extend sep c s, e) (extend-append sep c t l ls)

-- `pop` looks at the end alone.
pop-append :
    (xs : List Text) (l : Text) (ls : List Text)
    → pop (xs ++ l ∷ ls) ≡ (xs ++ (pop (l ∷ ls)).0, (pop (l ∷ ls)).1)
pop-append [] l ls = refl
pop-append (x ∷ []) l ls = refl
pop-append (x ∷ y ∷ xs) l ls =
    λ i. (x ∷ (pop-append (y ∷ xs) l ls i).0, (pop-append (y ∷ xs) l ls i).1)

frame-append :
    (s t : Text)
    → pop (split is_newline (s ++ t)) ≡ (
        let (ls, r) = pop (split is_newline s) in
        let (more, last) = frame r t in (ls ++ more, last))
unfolding frame
frame-append s t =
    let (l, ls, e) = split-cons is_newline ((pop (split is_newline s)).1 ++ t) in
    rw (split-append is_newline s t, e) (pop-append (pop (split is_newline s)).0 l ls)

abbrev resume : List Text × Text → List Text → List Text × Text
resume (lines, rest) chunks = let (more, last) = frames rest chunks in (lines ++ more, last)

frames_from :
    (s : Text) (chunks : List Text)
    → resume (pop (split is_newline s)) chunks ≡ pop (split is_newline (s ++ concat chunks))
unfolding frames
frames_from s [] = rw (append-nil s) (ap (λ ls. (ls, (pop (split is_newline s)).1)) (append-nil _))
frames_from s (c ∷ cs) =
    let (r, rest) = frame (pop (split is_newline s)).1 c in
    ap (λ ls. (ls, (frames rest cs).1)) (sym (append_assoc _ r (frames rest cs).0))
    ∙ ap (λ p. resume p cs) (sym (frame-append s c))
    ∙ frames_from (s ++ c) cs
    ∙ ap (λ t. pop (split is_newline t)) (append_assoc s c (concat cs))

-- However a text is cut into chunks, the reader hands on the lines of the whole text, in order,
-- and keeps the unfinished last line in its buffer.
pub frames-split : (chunks : List Text) → frames [] chunks ≡ pop (split is_newline (concat chunks))
frames-split chunks = unfold split in frames_from [] chunks

-- The lines of a text that are ended by a newline.
unfoldable pub complete_lines : Text → List Text
complete_lines s = (pop (split is_newline s)).0

pub frames-complete_lines :
    (chunks : List Text) → (frames [] chunks).0 ≡ complete_lines (concat chunks)
unfolding complete_lines
frames-complete_lines chunks = ap (λ p. p.0) (frames-split chunks)
