-- ===== src/Stream/Chunks.antt =====
-- What the line readers yield does not depend on where the body was cut into chunks.
use mathlib.Core.List.{append_assoc, append-nil}
use cloud_mesh.Common.{
  ℕ, zero, suc, ◌≤◌, ◌<◌, ◌≡◌, refl, sym, false, Option, none, some, List, [], ◌∷◌, ◌++◌, arith,
  ◌==◌, length, if◌then◌else◌, Bool-cases, inl, inr,
}
use cloud_mesh.Stream.{Text, newline, split_line, drain, yielded, prefixed, read_chunks}

-- All lines of a text and what is behind the last newline, by recursion on the text.
abbrev pub onto_first : ℕ → List Text × Text → List Text × Text
onto_first c ([], rest) = ([], c ∷ rest)
onto_first c (line ∷ lines, rest) = ((c ∷ line) ∷ lines, rest)

unfoldable pub cut : Text → List Text × Text
cut [] = ([], [])
cut (c ∷ s) =
    let (lines, rest) = cut s in
    if c == newline then ([] ∷ lines, rest) else onto_first c (lines, rest)

-- More text behind what was cut.
abbrev pub continued : List Text × Text → Text → List Text × Text
continued (lines, rest) t = (lines ++ (cut (rest ++ t)).0, (cut (rest ++ t)).1)

onto_first-continued :
    (c : ℕ) (p : List Text × Text) (t : Text)
    → (c == newline) ≡ false
    → onto_first c (continued p t) ≡ continued (onto_first c p) t
unfolding cut
onto_first-continued c ([], rest) t h = rw h refl
onto_first-continued c (line ∷ lines, rest) t h = refl

cut-append : (s t : Text) → cut (s ++ t) ≡ continued (cut s) t
unfolding cut
cut-append [] t = refl
cut-append (c ∷ s) t = elim (Bool-cases (c == newline)) [
  | inl line_end ↦ rw (line_end, cut-append s t) refl
  | inr other ↦ rw (other, cut-append s t) (onto_first-continued c (cut s) t other)
]

-- What one split of the buffer says about all its lines.
abbrev Cuts : Text → Option (Text × Text) → Type 0
Cuts b none = cut b ≡ ([], b)
Cuts b (some (line, rest)) =
    (cut b ≡ (line ∷ (cut rest).0, (cut rest).1)) × (length rest < length b)

prefixed-Cuts :
    (c : ℕ) (s : Text) (split : Option (Text × Text))
    → (c == newline) ≡ false
    → Cuts s split
    → Cuts (c ∷ s) (prefixed c split)
unfolding cut
prefixed-Cuts c s none h e = rw (h, e) refl
prefixed-Cuts c s (some (line, rest)) h (e, shorter) = (rw (h, e) refl, omega arith)

split_line-Cuts : (b : Text) → Cuts b (split_line b)
unfolding split_line
split_line-Cuts [] = unfold cut in refl
split_line-Cuts (c ∷ s) = elim (Bool-cases (c == newline)) [
  | inl line_end ↦ rw line_end (unfold cut in rw line_end refl, omega arith)
  | inr other ↦ rw other (prefixed-Cuts c s (split_line s) other (split_line-Cuts s))
]

abbrev pub emitted_all : (Text → Option Text) → List Text → List Text
emitted_all emit [] = []
emitted_all emit (line ∷ lines) = yielded (emit line) (emitted_all emit lines)

abbrev drained : (Text → Option Text) → List Text × Text → List Text × Text
drained emit (lines, rest) = (emitted_all emit lines, rest)

-- With fuel for every newline, the loop goes over all lines of the buffer.
drain_step :
    (emit : Text → Option Text) (fuel : ℕ) (b : Text) (split : Option (Text × Text))
    → ((r : Text) → length r ≤ fuel → drain emit fuel r ≡ drained emit (cut r))
    → length b ≤ suc fuel
    → split_line b ≡ split
    → Cuts b split
    → drain emit (suc fuel) b ≡ drained emit (cut b)
unfolding drain
drain_step emit fuel b none ih h same e = rw (same, drain, e) refl
drain_step emit fuel b (some (line, rest)) ih h same (e, shorter) =
    rw (same, drain, e, ih rest (omega arith)) refl

drain-cut :
    (emit : Text → Option Text) (fuel : ℕ) (b : Text)
    → length b ≤ fuel
    → drain emit fuel b ≡ drained emit (cut b)
drain-cut emit zero [] h = unfold drain cut in refl
drain-cut emit zero (c ∷ s) h = absurd (omega arith)
drain-cut emit (suc fuel) b h =
    drain_step emit fuel b (split_line b) (λ r k. drain-cut emit fuel r k) h refl
      (split_line-Cuts b)

yielded-append : (o : Option Text) (xs ys : List Text) → yielded o (xs ++ ys) ≡ yielded o xs ++ ys
yielded-append none xs ys = refl
yielded-append (some t) xs ys = refl

emitted_all-append :
    (emit : Text → Option Text) (xs ys : List Text)
    → emitted_all emit (xs ++ ys) ≡ emitted_all emit xs ++ emitted_all emit ys
emitted_all-append emit [] ys = refl
emitted_all-append emit (x ∷ xs) ys =
    rw (emitted_all, emitted_all-append emit xs ys)
      (yielded-append (emit x) (emitted_all emit xs) (emitted_all emit ys))

abbrev pub concat : List Text → Text
concat [] = []
concat (t ∷ ts) = t ++ concat ts

onto_first-rest :
    (c : ℕ) (p : List Text × Text)
    → (c == newline) ≡ false
    → (cut p.1).0 ≡ []
    → (cut (onto_first c p).1).0 ≡ []
unfolding cut
onto_first-rest c ([], rest) h none_left = rw (h, none_left) refl
onto_first-rest c (line ∷ lines, rest) h none_left = none_left

-- No line is left in what is behind the last newline.
cut-rest : (s : Text) → (cut (cut s).1).0 ≡ []
unfolding cut
cut-rest [] = refl
cut-rest (c ∷ s) = elim (Bool-cases (c == newline)) [
  | inl line_end ↦ rw line_end (cut-rest s)
  | inr other ↦ rw other (onto_first-rest c (cut s) other (cut-rest s))
]

-- However a body is cut into chunks, the loop yields what the lines of the whole body yield.
pub read_chunks-cut :
    (emit : Text → Option Text) (chunks : List Text) (buffer : Text)
    → (cut buffer).0 ≡ []
    → read_chunks emit chunks buffer ≡ emitted_all emit (cut (buffer ++ concat chunks)).0
unfolding read_chunks
read_chunks-cut emit [] buffer h = rw (append-nil buffer, h) refl
read_chunks-cut emit (t ∷ ts) buffer h =
    let now = cut (buffer ++ t) in
    rw
      (
        drain-cut emit (length (buffer ++ t)) (buffer ++ t) (omega arith),
        read_chunks-cut emit ts now.1 (cut-rest (buffer ++ t)),
        ← append_assoc buffer t (concat ts),
        cut-append (buffer ++ t) (concat ts),
      )
      (sym (emitted_all-append emit now.0 (cut (now.1 ++ concat ts)).0))
