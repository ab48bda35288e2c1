-- ===== src/Recorder/Paths/Frame.antt =====
-- compressed_recorder.c: naming a segment makes directories and touches no file.
use myworkspace.Prelude.{
  ℕ, List, [], ◌∷◌, ◌++◌, Bool, true, ◌≡◌, refl, if◌then◌else◌, ◌==◌, take, ◌-◌,
}
use myworkspace.Recorder.{path_max}
use myworkspace.Recorder.Os.{Os, Ctx}
use myworkspace.Recorder.Paths.{
  mkdir_loop, mkdir_from_second, mkdir_p, name_files, drop_last_slash, segment_dir,
  format_segment_paths,
}

-- The same C library, but for what closes, renames and deletes files.
abbrev pub with_files :
    {W : Type 0}
    → Os W
    → (ℕ → W → Bool × W)
    → (List ℕ → List ℕ → W → Bool × W)
    → (List ℕ → W → W)
    → Os W
with_files os close move delete = record os { fclose = close; rename = move; unlink = delete }

module _ {W : Type 0} (os : Os W) (close : ℕ → W → Bool × W) (move : List ℕ → List ℕ → W → Bool × W)
    (delete : List ℕ → W → W) where
  mkdir_loop-files :
      (before rest : List ℕ) (w : W)
      → mkdir_loop (with_files os close move delete) before rest w ≡ mkdir_loop os before rest w
  unfolding mkdir_loop
  mkdir_loop-files before [] w = refl
  mkdir_loop-files before (ch ∷ rest) w = rw (
      mkdir_loop-files (before ++ (ch ∷ [])) rest
        (if ch == b'/' then os.mkdir before w else (true, w)).1)

  mkdir_from_second-files :
      (path : List ℕ) (w : W)
      → mkdir_from_second (with_files os close move delete) path w ≡ mkdir_from_second os path w
  unfolding mkdir_from_second
  mkdir_from_second-files [] w = refl
  mkdir_from_second-files (ch ∷ rest) w = mkdir_loop-files (ch ∷ []) rest w

  mkdir_p-files :
      (path : List ℕ) (w : W) → mkdir_p (with_files os close move delete) path w ≡ mkdir_p os path w
  unfolding mkdir_p
  mkdir_p-files path w = rw (mkdir_from_second-files (drop_last_slash (take (path_max - 1) path)) w)

  pub format_segment_paths-files :
      (c : Ctx W) (wall_ms : ℕ)
      → format_segment_paths (with_files os close move delete) c wall_ms
        ≡ format_segment_paths os c wall_ms
  unfolding format_segment_paths name_files
  format_segment_paths-files c wall_ms =
      rw (mkdir_p-files (segment_dir c.r.raw_dir c.s.stream_id) c.w)
