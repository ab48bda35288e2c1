-- ===== src/Recorder/Paths.antt =====
-- compressed_recorder.c: the names of a segment's files, and `mkdir_p` for their directory.
pub mod Bounds
pub mod Frame
use myworkspace.Prelude.{
  ℕ, zero, suc, ◌+◌, ◌/◌, ◌%◌, ◌-◌, List, [], ◌∷◌, ◌++◌, Option, none, some, Bool, true, false, not,
  leb, ltb, ◌==◌, if◌then◌else◌, length, take,
}
use myworkspace.Protocol.{byte_at}
use myworkspace.Recorder.{Recorder, RecorderStream, path_max}
use myworkspace.Recorder.Os.{Os, Ctx}
use myworkspace.Recorder.Params.{is_empty}

-- The decimal digits of a number; a `uint16_t` has five at most.
unfoldable pub digits : ℕ → ℕ → List ℕ
digits zero n = []
digits (suc k) n =
    let rest = digits k (n / 10) in if ltb n 10 then (48 + n) ∷ [] else rest ++ ((48 + n % 10) ∷ [])

-- `%02u`
unfoldable pub format_02u : ℕ → List ℕ
format_02u n = if ltb n 10 then 48 ∷ (48 + n) ∷ [] else digits 10 n

unfoldable pub codec_ext : ℕ → List ℕ
codec_ext codec =
    if codec == 0
    then b'h' ∷ b'2' ∷ b'6' ∷ b'4' ∷ []
    else if codec == 1
    then b'h' ∷ b'e' ∷ b'v' ∷ b'c' ∷ []
    else b'b' ∷ b'i' ∷ b'n' ∷ []

unfoldable pub segment_dir : List ℕ → ℕ → List ℕ
segment_dir raw_dir stream_id = raw_dir ++ (b'/' ∷ b's' ∷ format_02u stream_id)

unfoldable pub segment_file : List ℕ → List ℕ → List ℕ → List ℕ
segment_file dir stamp ext = dir ++ (b'/' ∷ stamp ++ (b'.' ∷ ext))

unfoldable pub segment_tmp : List ℕ → List ℕ
segment_tmp file = file ++ (b'.' ∷ b't' ∷ b'm' ∷ b'p' ∷ [])

-- `if (tmp[len - 1] == '/') tmp[len - 1] = '\0';`
unfoldable pub drop_last_slash : List ℕ → List ℕ
drop_last_slash path =
    if byte_at path (length path - 1) == b'/' then take (length path - 1) path else path

module _ {W : Type 0} (os : Os W) where
  -- The `for` loop: `before` is the string up to `p`, and each directory above is made in turn.
  unfoldable pub mkdir_loop : List ℕ → List ℕ → W → Bool × W
  mkdir_loop before [] w = os.mkdir before w
  mkdir_loop before (ch ∷ rest) w =
      let (made, w') = (if ch == b'/' then os.mkdir before w else (true, w)) in
      let deeper = mkdir_loop (before ++ (ch ∷ [])) rest w' in if made then deeper else (false, w')

  -- From the second character on. (For the path "/" alone the C loop starts behind the terminator;
  -- the recorder's paths end in "raw" or in a stream's number.)
  unfoldable pub mkdir_from_second : List ℕ → W → Bool × W
  mkdir_from_second [] w = (false, w)
  mkdir_from_second (ch ∷ rest) w = mkdir_loop (ch ∷ []) rest w

  unfoldable pub mkdir_p : List ℕ → W → Bool × W
  mkdir_p path w =
      if is_empty path
      then (false, w)
      else mkdir_from_second (drop_last_slash (take (path_max - 1) path)) w

  abbrev set_paths : Ctx W → List ℕ → List ℕ → Ctx W
  set_paths c final_path tmp_path = record c {
    s = record c.s { final_path = final_path; tmp_path = tmp_path };
  }

  -- The file names, once the directory is there.
  unfoldable pub name_files : Ctx W → List ℕ → ℕ → Bool × Ctx W
  name_files c dir wall_ms =
      let file = segment_file dir (os.stamp (wall_ms / 1000)) c.s.ext in
      if leb path_max (length file)
      then (false, set_paths c [] [])
      else if leb path_max (length (segment_tmp file))
      then (false, set_paths c [] [])
      else (true, set_paths c file (segment_tmp file))

  unfoldable pub format_segment_paths : Ctx W → ℕ → Bool × Ctx W
  format_segment_paths c wall_ms =
      let dir = segment_dir c.r.raw_dir c.s.stream_id in
      if leb path_max (length dir)
      then (false, c)
      else (let (made, w) = mkdir_p dir c.w in
          if made then name_files (record c { w = w }) dir wall_ms else (false, record c { w = w }))
