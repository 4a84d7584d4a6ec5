-- ===== src/Sdk/RoundTrip.antt =====
-- The gateway's stream, read by the client: the frames of `writeSSE` and the final end mark of
-- modules/chat/routes.ts, through client.ts.
use mathlib.Core.List.{append_assoc}
use cloud_mesh.Common.{
  ℕ, ◌<◌, ◌≡◌, ◌≢◌, refl, ◌∙◌, true, false, Option, none, some, List, [], ◌∷◌, ◌++◌, map, ◌==◌,
  arith,
}
use cloud_mesh.Stream.{Text, codes, newline, trim, trim_end}
use cloud_mesh.Stream.Chunks.{cut, concat}
use cloud_mesh.Stream.Events.{write_sse, written, IsOneLine}
use cloud_mesh.Sdk.Reader.{
  Wire, ChatChunk, cut_frames, Read, chunk, chunk_of, read_payload, read_frame, read_frames,
  read_stream, onto,
}
use cloud_mesh.Sdk.Frames.{is_separator, cut_at_separator, cut_elsewhere, read_stream-cut_frames}

-- `JSON.stringify` and `JSON.parse` on the objects that the route writes: such a text is in braces
-- on one line, since a line end inside a string is escaped, and reads back as the object.
pub record Json (A : Type 0) : Type 0 where
  pub text_of : A → Text
  pub parse : Text → Option A
  pub inner : A → Text
  pub in_braces : (a : A) → text_of a ≡ b'{' ∷ (inner a ++ b'}' ∷ [])
  pub one_line : (a : A) → IsOneLine (inner a)
  pub parse-text_of : (a : A) → parse (text_of a) ≡ some a

cut_frame :
    (x s : Text)
    → IsOneLine x
    → cut_frames (x ++ newline ∷ newline ∷ s) ≡ (x ∷ (cut_frames s).0, (cut_frames s).1)
cut_frame [] s h = cut_at_separator newline newline s refl
cut_frame (c ∷ []) s (h, hs) =
    let other : is_separator c newline ≡ false = ground arith in
    rw (cut_elsewhere c newline (newline ∷ s) other, cut_at_separator newline newline s refl) refl
cut_frame (c ∷ d ∷ x) s (h, hs) =
    let other : is_separator c d ≡ false = ground arith in
    rw (cut_elsewhere c d (x ++ newline ∷ newline ∷ s) other, cut_frame (d ∷ x) s hs) refl

cut_one_line : (x : Text) → IsOneLine x → cut x ≡ ([], x)
unfolding cut
cut_one_line [] h = refl
cut_one_line (c ∷ x) (h, hs) =
    let other : (c == newline) ≡ false = ground arith in rw (other, cut_one_line x hs) refl

IsOneLine-append : (x y : Text) → IsOneLine x → IsOneLine y → IsOneLine (x ++ y)
IsOneLine-append [] y h k = k
IsOneLine-append (c ∷ x) y (h, hs) k = (h, IsOneLine-append x y hs k)

trim_end-closed : (x : Text) → trim_end (x ++ b'}' ∷ []) ≡ x ++ b'}' ∷ []
unfolding trim_end
trim_end-closed [] = refl
trim_end-closed (c ∷ []) = refl
trim_end-closed (c ∷ d ∷ x) = rw (trim_end-closed (d ∷ x)) refl

-- A text in braces keeps its ends.
trim-braces : (x : Text) → trim (b' ' ∷ b'{' ∷ (x ++ b'}' ∷ [])) ≡ b'{' ∷ (x ++ b'}' ∷ [])
unfolding trim
trim-braces x = trim_end-closed (b'{' ∷ x)

data-IsOneLine : (p : Text) → IsOneLine p → IsOneLine (codes "data: " ++ p)
data-IsOneLine p h =
    let ne : (k : ℕ) → 10 < k → k ≢ newline = λ k lt e. absurd (omega arith) in
    IsOneLine-append (codes "data: ") p
      (
        ne _ (omega arith),
        (
          ne _ (omega arith),
          (
            ne _ (omega arith),
            (ne _ (omega arith), (ne _ (omega arith), (ne _ (omega arith), tt))),
          ),
        ),
      )
      h

module _ {A : Type 0} (json : Json A) (wire : A → Wire) where
  open json use {text_of, parse, inner, in_braces, one_line, parse-text_of}

  -- The chunk that the client makes of one object, if it has a text.
  abbrev pub said : A → Read
  said a = chunk_of parse wire (wire a).delta (wire a)

  abbrev pub prepended : Read → List ChatChunk → List ChatChunk
  prepended (chunk c) out = c ∷ out
  prepended _ out = out

  abbrev pub all_said : List A → List ChatChunk
  all_said [] = []
  all_said (a ∷ objects) = prepended (said a) (all_said objects)

  -- What the route writes: a frame for each object, and the end mark.
  abbrev pub body_of : List A → Text
  body_of objects = written (map text_of objects) ++ write_sse (codes "[DONE]")

  read_frame_lem :
      (p : Text)
      → IsOneLine p
      → read_frame parse wire (codes "data: " ++ p) ≡ read_payload parse wire (trim (b' ' ∷ p))
  unfolding read_frame
  read_frame_lem p h = rw (cut_one_line (codes "data: " ++ p) (data-IsOneLine p h)) refl

  text_of-IsOneLine : (a : A) → IsOneLine (text_of a)
  text_of-IsOneLine a =
      let ne : (k : ℕ) → 10 < k → k ≢ newline = λ k lt e. absurd (omega arith) in
      rw (in_braces a) (
        ne _ (omega arith),
        IsOneLine-append (inner a) (b'}' ∷ []) (one_line a) (ne _ (omega arith), tt),
      )

  read_frame-text_of : (a : A) → read_frame parse wire (codes "data: " ++ text_of a) ≡ said a
  unfolding read_payload
  read_frame-text_of a =
      read_frame_lem (text_of a) (text_of-IsOneLine a)
      ∙ rw (in_braces a, trim-braces (inner a), ← in_braces a, parse-text_of a) refl

  frames_of :
      (p s : Text)
      → IsOneLine p
      → cut_frames (write_sse p ++ s) ≡ ((codes "data: " ++ p) ∷ (cut_frames s).0, (cut_frames s).1)
  unfolding write_sse
  frames_of p s h =
      rw (append_assoc (codes "data: " ++ p) (codes "\n\n") s)
        (cut_frame (codes "data: " ++ p) s (data-IsOneLine p h))

  onto-chunk_of :
      (d : Option Text) (w : Wire) (out : List ChatChunk)
      → onto parse wire (chunk_of parse wire d w) (out, true)
        ≡ (prepended (chunk_of parse wire d w) out, true)
  onto-chunk_of none w out = refl
  onto-chunk_of (some d) w out = refl

  done_frame : read_frames parse wire (cut_frames (write_sse (codes "[DONE]"))).0 ≡ ([], true)
  unfolding read_frames read_frame read_payload write_sse cut_frames cut trim
  done_frame = refl

  read_frames-body_of :
      (objects : List A)
      → read_frames parse wire (cut_frames (body_of objects)).0 ≡ (all_said objects, true)
  unfolding read_frames
  read_frames-body_of [] = done_frame
  read_frames-body_of (a ∷ objects) =
      rw
        (
          append_assoc (write_sse (text_of a)) (written (map text_of objects))
              (write_sse (codes "[DONE]")),
          frames_of (text_of a) (body_of objects) (text_of-IsOneLine a),
          read_frame-text_of a,
          read_frames-body_of objects,
        )
        (onto-chunk_of (wire a).delta (wire a) (all_said objects))

  -- However the gateway's body is cut into chunks on its way, the client yields exactly the texts of
  -- the objects that the route wrote, in order, each with its model and provider, and ends there.
  -- Objects without a text, such as the report of an error, yield nothing.
  pub read_stream-body_of :
      (objects : List A) (chunks : List Text)
      → concat chunks ≡ body_of objects
      → read_stream parse wire chunks [] ≡ all_said objects
  read_stream-body_of objects chunks same =
      read_stream-cut_frames parse wire chunks [] (unfold cut_frames in refl)
      ∙ rw (same, read_frames-body_of objects) refl
