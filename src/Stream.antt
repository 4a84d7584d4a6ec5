-- ===== src/Stream.antt =====
-- apps/gateway/src/lib/sse.ts: the readers of a provider's streamed body. A text is the list of its
-- code points, and the body is the list of the texts that `TextDecoder` gives for its chunks.
pub mod Chunks
pub mod Events
mod Tests
use Prim.Native.Char.{code}
use Prim.Native.String
use Prim.Native.String.{String}
use cloud_mesh.Common.{
  ℕ, zero, suc, ◌+◌, Bool, true, false, not, ◌&&◌, ◌||◌, Option, none, some, List, [], ◌∷◌, ◌++◌,
  leb, ◌==◌, length, if◌then◌else◌,
}

abbrev pub Text : Type 0
Text = List ℕ

abbrev pub codes : String → Text
codes String.[] = []
codes (String.◌∷◌ c s) = code c ∷ codes s

abbrev pub newline : ℕ
newline = 10

-- What `String.prototype.trim` takes away: white space, line ends and the byte order mark.
unfoldable pub is_space : ℕ → Bool
is_space c =
    leb 9 c && leb c 13
    || c == 32
    || c == 160
    || c == 0x1680
    || leb 0x2000 c && leb c 0x200a
    || c == 0x2028
    || c == 0x2029
    || c == 0x202f
    || c == 0x205f
    || c == 0x3000
    || c == 0xfeff

unfoldable pub trim_start : Text → Text
trim_start [] = []
trim_start (c ∷ s) = elim (is_space c) [ true ↦ trim_start s | false ↦ c ∷ s ]

-- A character stays if it is no white space or if something after it stays.
abbrev keep_unless : Bool → ℕ → Text → Text
keep_unless blank c [] = if blank then [] else c ∷ []
keep_unless blank c (d ∷ s) = c ∷ d ∷ s

unfoldable pub trim_end : Text → Text
unfolding is_space
trim_end [] = []
trim_end (c ∷ s) = keep_unless (is_space c) c (trim_end s)

unfoldable pub trim : Text → Text
unfolding trim_start trim_end
trim s = trim_end (trim_start s)

-- `startsWith(prefix)` and `slice(prefix.length)` in one: the rest behind the prefix.
abbrev pub strip : Text → Text → Option Text
strip [] s = some s
strip (p ∷ ps) [] = none
strip (p ∷ ps) (c ∷ s) = if p == c then strip ps s else none

abbrev pub data_prefix : Text
data_prefix = codes "data:"

-- `indexOf("\n")` and the two slices: the text before the first newline, and after it.
abbrev prefixed : ℕ → Option (Text × Text) → Option (Text × Text)
prefixed c none = none
prefixed c (some (line, rest)) = some (c ∷ line, rest)

unfoldable pub split_line : Text → Option (Text × Text)
split_line [] = none
split_line (c ∷ s) = if c == newline then some ([], s) else prefixed c (split_line s)

-- The `while` loop over the buffer's lines, of which `emit` yields what it yields. Each round takes
-- a newline away, so the buffer's length is fuel enough.
abbrev yielded : Option Text → List Text → List Text
yielded none out = out
yielded (some t) out = t ∷ out

unfoldable pub drain : (Text → Option Text) → ℕ → Text → List Text × Text
unfolding split_line
drain emit zero buffer = ([], buffer)
drain emit (suc fuel) buffer = elim (split_line buffer) [
  | none ↦ ([], buffer)
  | some (line, rest) ↦ (yielded (emit line) (drain emit fuel rest).0, (drain emit fuel rest).1)
]

-- The loop over the chunks. What is left in the buffer at the end is dropped.
unfoldable pub read_chunks : (Text → Option Text) → List Text → Text → List Text
unfolding drain
read_chunks emit [] buffer = []
read_chunks emit (chunk ∷ chunks) buffer =
    let (out, left) = drain emit (length (buffer ++ chunk)) (buffer ++ chunk) in
    out ++ read_chunks emit chunks left

abbrev pub sse_payload : Option Text → Option Text
sse_payload none = none
sse_payload (some rest) = some (trim rest)

-- One line of an event stream: the payload behind `data:`.
unfoldable pub sse_line : Text → Option Text
unfolding trim
sse_line line = sse_payload (strip data_prefix (trim line))

abbrev pub unless_empty : Text → Option Text
unless_empty [] = none
unless_empty (c ∷ s) = some (c ∷ s)

unfoldable pub ndjson_line : Text → Option Text
unfolding trim
ndjson_line line = unless_empty (trim line)

unfoldable pub parse_sse_lines : List Text → List Text
unfolding read_chunks sse_line
parse_sse_lines chunks = read_chunks sse_line chunks []

unfoldable pub parse_ndjson_lines : List Text → List Text
unfolding read_chunks ndjson_line
parse_ndjson_lines chunks = read_chunks ndjson_line chunks []
