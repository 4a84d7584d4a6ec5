-- ===== src/Stream/Tests.antt =====
-- Runs of the line readers, and their theorems at concrete inputs.
use cloud_mesh.Common.{ℕ, ◌<◌, ◌≡◌, ◌≢◌, refl, [], ◌∷◌, arith}
use cloud_mesh.Stream.{
  codes, newline, is_space, trim_start, trim_end, trim, parse_sse_lines, parse_ndjson_lines,
  ndjson_line,
}
use cloud_mesh.Stream.Events.{IsPayload, parse-rechunked}

above : (k : ℕ) → 10 < k → k ≢ newline
above k lt e = absurd (omega arith)

a-IsPayload : IsPayload (codes "{a}")
unfolding trim_start trim_end is_space
a-IsPayload = record {
  one_line = (above _ (omega arith), (above _ (omega arith), (above _ (omega arith), tt)));
  no_start = refl;
  no_end = refl;
}

parse-rechunked_example :
    (parse_sse_lines (codes "data:" ∷ codes "x\n" ∷ []) ≡ parse_sse_lines (codes "data:x\n" ∷ []))
    × (parse_ndjson_lines (codes "data:" ∷ codes "x\n" ∷ [])
        ≡ parse_ndjson_lines (codes "data:x\n" ∷ []))
parse-rechunked_example =
    parse-rechunked (codes "data:" ∷ codes "x\n" ∷ []) (codes "data:x\n" ∷ []) refl

-- A last line without its newline is not yielded.
last_line_dropped : parse_ndjson_lines (codes "{a}\n{b}" ∷ []) ≡ codes "{a}" ∷ []
unfolding parse_ndjson_lines ndjson_line trim
last_line_dropped = refl
