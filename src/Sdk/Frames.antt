-- ===== src/Sdk/Frames.antt =====
-- What the client reads of a stream does not depend on where its body was cut into chunks.
use mathlib.Core.List.{append_assoc, append-nil}
use cloud_mesh.Common.{
  ℕ, ◌≡◌, refl, sym, ap, Bool, true, false, ◌&&◌, Option, List, [], ◌∷◌, ◌++◌, ◌==◌, Bool-cases,
  inl, inr,
}
use cloud_mesh.Stream.{Text, newline}
use cloud_mesh.Stream.Chunks.{onto_first, concat}
use cloud_mesh.Sdk.Reader.{
  Wire, ChatChunk, cut_frames, Read, skip, stop, chunk, read_frame, onto, read_frames,
  unless_stopped, read_stream,
}

-- More text behind what was cut into frames.
abbrev pub continued : List Text × Text → Text → List Text × Text
continued (frames, rest) t = (frames ++ (cut_frames (rest ++ t)).0, (cut_frames (rest ++ t)).1)

-- A text without a separator is all rest.
onto_first_none :
    (c : ℕ) (s : Text) (p : List Text × Text)
    → (p.0 ≡ [] → p.1 ≡ s)
    → (onto_first c p).0 ≡ []
    → (onto_first c p).1 ≡ c ∷ s
onto_first_none c s ([], rest) ih h = ap (λ (r : Text). c ∷ r) (ih refl)
onto_first_none c s (f ∷ fs, rest) ih h = cc

abbrev pub is_separator : ℕ → ℕ → Bool
is_separator c d = (c == newline) && (d == newline)

pub cut_at_separator :
    (c d : ℕ) (s : Text)
    → is_separator c d ≡ true
    → cut_frames (c ∷ d ∷ s) ≡ ([] ∷ (cut_frames s).0, (cut_frames s).1)
unfolding cut_frames
cut_at_separator c d s h = rw (h, cut_frames) refl

pub cut_elsewhere :
    (c d : ℕ) (s : Text)
    → is_separator c d ≡ false
    → cut_frames (c ∷ d ∷ s) ≡ onto_first c (cut_frames (d ∷ s))
unfolding cut_frames
cut_elsewhere c d s h = rw (h, cut_frames) refl

cut_frames_none : (s : Text) → (cut_frames s).0 ≡ [] → (cut_frames s).1 ≡ s
cut_frames_none [] h = unfold cut_frames in refl
cut_frames_none (c ∷ []) h = unfold cut_frames in refl
cut_frames_none (c ∷ d ∷ s) h = elim (Bool-cases (is_separator c d)) [
  | inl sep ↦ cc (cut_at_separator c d s sep)
  | inr other ↦
      let e = cut_elsewhere c d s other in
      rw e (onto_first_none c (d ∷ s) (cut_frames (d ∷ s)) (cut_frames_none (d ∷ s)) (rw e at h))
]

-- Text behind a part that starts with `d`, and `c` in front of it.
onto_first-continued :
    (c d : ℕ) (s t : Text) (p : List Text × Text)
    → is_separator c d ≡ false
    → (p.0 ≡ [] → p.1 ≡ d ∷ s)
    → onto_first c (continued p t) ≡ continued (onto_first c p) t
onto_first-continued c d s t ([], rest) h none_left =
    rw (none_left refl) (sym (cut_elsewhere c d (s ++ t) h))
onto_first-continued c d s t (f ∷ fs, rest) h none_left = refl

cut_frames-append : (s t : Text) → cut_frames (s ++ t) ≡ continued (cut_frames s) t
cut_frames-append [] t = unfold cut_frames in refl
cut_frames-append (c ∷ []) t = unfold cut_frames in refl
cut_frames-append (c ∷ d ∷ s) t = elim (Bool-cases (is_separator c d)) [
  | inl sep ↦
      rw (cut_at_separator c d s sep, cut_at_separator c d (s ++ t) sep, cut_frames-append s t) refl
  | inr other ↦
      rw (cut_elsewhere c d s other, cut_elsewhere c d (s ++ t) other, cut_frames-append (d ∷ s) t)
        (onto_first-continued c d s t (cut_frames (d ∷ s)) other (cut_frames_none (d ∷ s)))
]

onto_first-rest :
    (c d : ℕ) (s : Text) (p : List Text × Text)
    → is_separator c d ≡ false
    → (p.0 ≡ [] → p.1 ≡ d ∷ s)
    → (cut_frames p.1).0 ≡ []
    → (cut_frames (onto_first c p).1).0 ≡ []
onto_first-rest c d s ([], rest) h none_left e =
    let same = none_left refl in
    rw same (rw (cut_elsewhere c d s h) (onto_first_head c (cut_frames (d ∷ s)) (rw same at e)))
  where
    onto_first_head : (c' : ℕ) (q : List Text × Text) → q.0 ≡ [] → (onto_first c' q).0 ≡ []
    onto_first_head c' ([], r) k = refl
    onto_first_head c' (f ∷ fs, r) k = cc
onto_first-rest c d s (f ∷ fs, rest) h none_left e = e

-- No separator is left in the last part.
cut_frames-rest : (s : Text) → (cut_frames (cut_frames s).1).0 ≡ []
cut_frames-rest [] = unfold cut_frames in refl
cut_frames-rest (c ∷ []) = unfold cut_frames in refl
cut_frames-rest (c ∷ d ∷ s) = elim (Bool-cases (is_separator c d)) [
  | inl sep ↦ rw (cut_at_separator c d s sep) (cut_frames-rest s)
  | inr other ↦ rw (cut_elsewhere c d s other) (
      onto_first-rest c d s (cut_frames (d ∷ s)) other (cut_frames_none (d ∷ s))
        (cut_frames-rest (d ∷ s)))
]

module _ {A : Type 0} (parse : Text → Option A) (wire : A → Wire) where
  -- Frames behind frames.
  abbrev joined : List ChatChunk × Bool → List ChatChunk × Bool → List ChatChunk × Bool
  joined (out, true) later = (out, true)
  joined (out, false) (out', stopped) = (out ++ out', stopped)

  onto-joined :
      (r : Read) (p q : List ChatChunk × Bool)
      → onto parse wire r (joined p q) ≡ joined (onto parse wire r p) q
  onto-joined skip p q = refl
  onto-joined stop p q = refl
  onto-joined (chunk c) (out, true) q = refl
  onto-joined (chunk c) (out, false) q = refl

  read_frames-append :
      (xs ys : List Text)
      → read_frames parse wire (xs ++ ys)
        ≡ joined (read_frames parse wire xs) (read_frames parse wire ys)
  unfolding read_frames
  read_frames-append [] ys = refl
  read_frames-append (x ∷ xs) ys =
      rw (read_frames-append xs ys) (onto-joined (read_frame parse wire x) _ _)

  joined_out : (p q : List ChatChunk × Bool) → (joined p q).0 ≡ unless_stopped parse wire p q.0
  joined_out (out, true) q = refl
  joined_out (out, false) q = refl

  -- However the body is cut into chunks, the client reads what the frames of the whole body say.
  pub read_stream-cut_frames :
      (ts : List Text) (buffer : Text)
      → (cut_frames buffer).0 ≡ []
      → read_stream parse wire ts buffer
        ≡ (read_frames parse wire (cut_frames (buffer ++ concat ts)).0).0
  unfolding read_stream
  read_stream-cut_frames [] buffer h = rw (append-nil buffer, h) (unfold read_frames in refl)
  read_stream-cut_frames (t ∷ ts) buffer h =
      let now = cut_frames (buffer ++ t) in
      rw
        (
          read_stream-cut_frames ts now.1 (cut_frames-rest (buffer ++ t)),
          ← append_assoc buffer t (concat ts),
          cut_frames-append (buffer ++ t) (concat ts),
          read_frames-append now.0 (cut_frames (now.1 ++ concat ts)).0,
        )
        (sym (joined_out (read_frames parse wire now.0) _))
