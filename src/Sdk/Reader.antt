-- ===== src/Sdk/Reader.antt =====
-- packages/sdk/src/client.ts: the reader of a streamed chat. What `JSON.parse` gives, and the fields
-- that the client reads of it, are arguments.
use cloud_mesh.Common.{
  Bool, true, false, ◌&&◌, Option, none, some, List, [], ◌∷◌, ◌++◌, ◌==◌, if◌then◌else◌,
}
use cloud_mesh.Stream.{Text, codes, newline, strip, data_prefix, trim}
use cloud_mesh.Stream.Chunks.{cut, onto_first}

-- The fields of a frame: `delta` where it is a text that is not empty.
pub record Wire : Type 0 where
  pub delta : Option Text
  pub model : Option Text
  pub provider : Option Text

pub record ChatChunk : Type 0 where
  pub text : Text
  pub model : Option Text
  pub provider : Option Text

-- `split("\n\n")`: the parts in front of a separator, and the last part.
unfoldable pub cut_frames : Text → List Text × Text
cut_frames [] = ([], [])
cut_frames (c ∷ []) = ([], c ∷ [])
cut_frames (c ∷ d ∷ s) = elim ((c == newline) && (d == newline)) [
  | true ↦ ([] ∷ (cut_frames s).0, (cut_frames s).1)
  | false ↦ onto_first c (cut_frames (d ∷ s))
]

-- `split("\n")`
abbrev pub split_lines : Text → List Text
split_lines t = (cut t).0 ++ (cut t).1 ∷ []

-- `find` the first line that starts with `data:`, and cut the prefix off.
abbrev pub first_of : Option Text → Option Text → Option Text
first_of none later = later
first_of (some t) later = some t

abbrev pub find_data : List Text → Option Text
find_data [] = none
find_data (l ∷ ls) = first_of (strip data_prefix l) (find_data ls)

abbrev pub eq_text : Text → Text → Bool
eq_text [] [] = true
eq_text [] (d ∷ t) = false
eq_text (c ∷ s) [] = false
eq_text (c ∷ s) (d ∷ t) = (c == d) && eq_text s t

pub data Read : Type 0 where
  skip stop : Read
  chunk : ChatChunk → Read

module _ {A : Type 0} (parse : Text → Option A) (wire : A → Wire) where
  abbrev pub chunk_of : Option Text → Wire → Read
  chunk_of none w = skip
  chunk_of (some delta) w = chunk (record { text = delta; model = w.model; provider = w.provider })

  -- A payload that `JSON.parse` refuses is skipped.
  abbrev pub read_json : Option A → Read
  read_json none = skip
  read_json (some a) = chunk_of (wire a).delta (wire a)

  unfoldable pub read_payload : Text → Read
  read_payload payload =
      if eq_text payload (codes "[DONE]")
      then stop
      else if eq_text payload []
      then skip
      else read_json (parse payload)

  abbrev pub read_data : Option Text → Read
  read_data none = skip
  read_data (some rest) = read_payload (trim rest)

  unfoldable pub read_frame : Text → Read
  unfolding read_payload
  read_frame frame = read_data (find_data (split_lines frame))

  -- The frames in turn: the chunks, and whether the end mark has ended them.
  abbrev pub onto : Read → List ChatChunk × Bool → List ChatChunk × Bool
  onto skip (out, stopped) = (out, stopped)
  onto stop (out, stopped) = ([], true)
  onto (chunk c) (out, stopped) = (c ∷ out, stopped)

  unfoldable pub read_frames : List Text → List ChatChunk × Bool
  unfolding read_frame
  read_frames [] = ([], false)
  read_frames (f ∷ fs) = onto (read_frame f) (read_frames fs)

  abbrev pub unless_stopped : List ChatChunk × Bool → List ChatChunk → List ChatChunk
  unless_stopped (out, true) later = out
  unless_stopped (out, false) later = out ++ later

  -- The loop over the chunks of the body.
  unfoldable pub read_stream : List Text → Text → List ChatChunk
  unfolding read_frames cut_frames
  read_stream [] buffer = []
  read_stream (t ∷ ts) buffer =
      let (frames, rest) = cut_frames (buffer ++ t) in
      unless_stopped (read_frames frames) (read_stream ts rest)
