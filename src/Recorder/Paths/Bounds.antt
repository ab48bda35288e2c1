-- ===== src/Recorder/Paths/Bounds.antt =====
-- compressed_recorder.c: the path buffers are long enough, so a segment's names are never refused
-- for their length.
use myworkspace.Prelude.{
  ℕ, zero, suc, ◌+◌, ◌/◌, ◌%◌, ◌⊎◌, false, ◌≤◌, ◌<◌, ◌≡◌, List, [], ◌∷◌, ◌++◌, true, arith, length,
  length-append,
}
use myworkspace.Recorder.Os.{Os, Ctx}
use myworkspace.Recorder.Paths.{
  digits, format_02u, segment_dir, segment_file, segment_tmp, name_files, mkdir_p,
  format_segment_paths,
}

length-digits-le : (k n : ℕ) → length (digits k n) ≤ k
unfolding digits
length-digits-le zero n = omega arith
length-digits-le (suc k) n =
    ground
      (arith, length-digits-le k (n / 10), length-append (digits k (n / 10)) ((48 + n % 10) ∷ []))

length-segment_dir-le :
    (raw_dir : List ℕ) (id : ℕ) → length (segment_dir raw_dir id) ≤ length raw_dir + 12
unfolding segment_dir format_02u
length-segment_dir-le raw_dir id =
    ground (arith, length-digits-le 10 id, length-append raw_dir (b'/' ∷ b's' ∷ format_02u id))

length-segment_file :
    (dir stamp ext : List ℕ)
    → length (segment_file dir stamp ext) ≡ length dir + length stamp + length ext + 2
unfolding segment_file
length-segment_file dir stamp ext =
    omega
      (arith, length-append dir (b'/' ∷ stamp ++ (b'.' ∷ ext)), length-append stamp (b'.' ∷ ext))

length-segment_tmp : (file : List ℕ) → length (segment_tmp file) ≡ length file + 4
unfolding segment_tmp
length-segment_tmp file = omega (arith, length-append file (b'.' ∷ b't' ∷ b'm' ∷ b'p' ∷ []))

module _ {W : Type 0} (os : Os W) where
  -- With a directory name below 512 bytes, an extension of at most four and a time stamp that fits
  -- its 64 byte buffer, the naming of a segment fails only if its directory cannot be made, and where
  -- it succeeds the temporary name is the final one with ".tmp".
  pub format_segment_paths_fits :
      (c : Ctx W) (wall_ms : ℕ)
      → length c.r.raw_dir < 512
      → length c.s.ext ≤ 4
      → length (os.stamp (wall_ms / 1000)) < 64
      → let dir = segment_dir c.r.raw_dir c.s.stream_id in
        let (named, d) = format_segment_paths os c wall_ms in
        (named ≡ (mkdir_p os dir c.w).0)
        × ((named ≡ true) ⊎ (d.s ≡ c.s))
        × ((named ≡ false)
            ⊎ ((d.s.final_path ≡ segment_file dir (os.stamp (wall_ms / 1000)) c.s.ext)
                × (d.s.tmp_path ≡ segment_tmp d.s.final_path)))
  unfolding format_segment_paths name_files
  format_segment_paths_fits c wall_ms raw ext stamp =
      let dir = segment_dir c.r.raw_dir c.s.stream_id in
      let file = segment_file dir (os.stamp (wall_ms / 1000)) c.s.ext in
      ground (
        arith,
        length-segment_dir-le c.r.raw_dir c.s.stream_id,
        length-segment_file dir (os.stamp (wall_ms / 1000)) c.s.ext,
        length-segment_tmp file,
      )
