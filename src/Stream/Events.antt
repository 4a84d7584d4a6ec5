-- ===== src/Stream/Events.antt =====
-- The frames that the chat route writes (`writeSSE` of modules/chat/routes.ts), and the line
-- readers' promise for them.
use mathlib.Core.List.{append_assoc}
use cloud_mesh.Common.{
  ℕ, ◌<◌, ◌≡◌, ◌≢◌, refl, sym, ap, ◌∙◌, false, Option, some, List, [], ◌∷◌, ◌++◌, arith, ◌==◌, All,
}
use cloud_mesh.Stream.{
  Text, codes, newline, trim_start, trim_end, trim, sse_line, ndjson_line, read_chunks,
  parse_sse_lines, parse_ndjson_lines,
}
use cloud_mesh.Stream.Chunks.{cut, concat, emitted_all, read_chunks-cut}

-- `writeSSE`, for the text that `JSON.stringify` gives.
unfoldable pub write_sse : Text → Text
write_sse payload = codes "data: " ++ (payload ++ codes "\n\n")

abbrev pub written : List Text → Text
written [] = []
written (p ∷ ps) = write_sse p ++ written ps

abbrev pub IsOneLine : Text → Type 0
IsOneLine = All (λ c. c ≢ newline)

-- A text on one line that has no white space at its ends.
pub record IsPayload (p : Text) : Type 0 where
  pub one_line : IsOneLine p
  pub no_start : trim_start p ≡ p
  pub no_end : trim_end p ≡ p

cut_line : (p s : Text) → IsOneLine p → cut (p ++ newline ∷ s) ≡ (p ∷ (cut s).0, (cut s).1)
unfolding cut
cut_line [] s h = refl
cut_line (c ∷ p) s (h, hs) =
    let other : (c == newline) ≡ false = ground arith in rw (other, cut_line p s hs) refl

trim_end-data : (p : Text) → trim_end p ≡ p → sse_line (codes "data: " ++ p) ≡ some (trim p)
unfolding sse_line trim
trim_end-data [] h = refl
trim_end-data (c ∷ s) h = rw h refl

trim-IsPayload : (p : Text) → IsPayload p → trim p ≡ p
unfolding trim
trim-IsPayload p v = rw v.no_start v.no_end

data-IsOneLine : (p : Text) → IsOneLine p → IsOneLine (codes "data: " ++ p)
data-IsOneLine p h =
    let ne : (k : ℕ) → 10 < k → k ≢ newline = λ k lt e. absurd (omega arith) in
    (
      ne _ (omega arith),
      (
        ne _ (omega arith),
        (ne _ (omega arith), (ne _ (omega arith), (ne _ (omega arith), (ne _ (omega arith), h)))),
      ),
    )

rechunked :
    (emit : Text → Option Text) (xs ys : List Text)
    → concat xs ≡ concat ys
    → read_chunks emit xs [] ≡ read_chunks emit ys []
rechunked emit xs ys same =
    read_chunks-cut emit xs [] (unfold cut in refl)
    ∙ rw same (sym (read_chunks-cut emit ys [] (unfold cut in refl)))

sse_line_lem : (p : Text) → IsPayload p → sse_line (codes "data: " ++ p) ≡ some p
sse_line_lem p v = trim_end-data p v.no_end ∙ ap some (trim-IsPayload p v)

-- The blank line behind a frame yields nothing.
blank_line :
    (s : Text) → emitted_all sse_line (cut (newline ∷ s)).0 ≡ emitted_all sse_line (cut s).0
unfolding cut sse_line trim
blank_line s = refl

cut-written : (ps : List Text) → All IsPayload ps → emitted_all sse_line (cut (written ps)).0 ≡ ps
unfolding write_sse
cut-written [] h = unfold cut in refl
cut-written (p ∷ ps) (v, vs) =
    rw
      (
        append_assoc (codes "data: " ++ p) (codes "\n\n") (written ps),
        cut_line (codes "data: " ++ p) (newline ∷ written ps) (data-IsOneLine p v.one_line),
      )
      (rw (sse_line_lem p v)
        (ap (λ (out : List Text). p ∷ out) (blank_line (written ps) ∙ cut-written ps vs)))

-- Whatever the payloads, each of one line and with no white space at its ends, and however their
-- frames are cut into chunks, the reader yields exactly the payloads, in order.
pub parse_sse_lines-written :
    (ps chunks : List Text)
    → All IsPayload ps
    → concat chunks ≡ written ps
    → parse_sse_lines chunks ≡ ps
unfolding parse_sse_lines
parse_sse_lines-written ps chunks h same =
    read_chunks-cut sse_line chunks [] (unfold cut in refl) ∙ rw same (cut-written ps h)

-- Two ways to cut one body into chunks are read alike, by both readers.
pub parse-rechunked :
    (xs ys : List Text)
    → concat xs ≡ concat ys
    → (parse_sse_lines xs ≡ parse_sse_lines ys) × (parse_ndjson_lines xs ≡ parse_ndjson_lines ys)
unfolding parse_sse_lines parse_ndjson_lines
parse-rechunked xs ys same = (rechunked sse_line xs ys same, rechunked ndjson_line xs ys same)
