-- ===== src/Recorder/Segment/Files.antt =====
-- compressed_recorder.c: what a segment file holds.
use myworkspace.Prelude.{
  ℕ, List, [], ◌∷◌, ◌++◌, some, true, ◌≡◌, ◌≢◌, refl, arith, if◌then◌else◌, append_assoc,
  append-nil, ◌⊎◌, inl, inr, ap, ◌∙◌, Bool-cases, ◌==◌, ==_iff,
}
use mathlib.Core.List.{flatten}
use myworkspace.Recorder.{start_code4, RecorderStream}
use myworkspace.Recorder.Os.{Os, Ctx}
use myworkspace.Recorder.Nal.{payload_has_start_code}
use myworkspace.Recorder.Segment.{
  write_all, write_payload_annexb, write_sets, sets_of, write_param_sets, write_segment_packet,
}
use myworkspace.Recorder.Process.{write_head}

-- What the C library documents of its files: `fwrite` that takes every byte appends them.
pub record FileLaws {W : Type 0} (os : Os W) (contents : ℕ → W → List ℕ) : Type 0 where
  pub fwrite_appends :
      (f : ℕ) (d : List ℕ) (w : W)
      → (os.fwrite f d w).0 ≡ true
      → contents f (os.fwrite f d w).1 ≡ contents f w ++ d

-- A packet as an Annex B byte stream.
abbrev pub annexb : List ℕ → List ℕ
annexb d = if payload_has_start_code d then d else start_code4 ++ d

module _ {W : Type 0} {os : Os W} {contents : ℕ → W → List ℕ} (laws : FileLaws os contents) where
  write_all-contents :
      (f : ℕ) (d : List ℕ) (w : W)
      → (write_all os f d w).0 ≡ true
      → contents f (write_all os f d w).1 ≡ contents f w ++ d
  unfolding write_all
  write_all-contents f [] w e = rw append-nil
  write_all-contents f (x ∷ d) w e = laws.fwrite_appends f (x ∷ d) w e

  write_sets-contents :
      (f : ℕ) (ps : List (List ℕ)) (w : W)
      → (write_sets os f ps w).0 ≡ true
      → contents f (write_sets os f ps w).1 ≡ contents f w ++ flatten ps
  unfolding write_sets flatten
  write_sets-contents f [] w e = rw append-nil
  write_sets-contents f (p ∷ ps) w e =
      let w1 = (write_all os f p w).1 in
      ground (
        arith,
        write_all-contents f p w,
        write_sets-contents f ps w1,
        append_assoc (contents f w) p (flatten ps),
      )

  write_payload_annexb-contents :
      (f : ℕ) (d : List ℕ) (w : W)
      → d ≢ []
      → (write_payload_annexb os f d w).0 ≡ true
      → contents f (write_payload_annexb os f d w).1 ≡ contents f w ++ annexb d
  unfolding write_payload_annexb
  write_payload_annexb-contents f [] w some_data e = absurd (some_data refl)
  write_payload_annexb-contents f (x ∷ d) w some_data e =
      let w1 = (write_all os f start_code4 w).1 in
      ground (
        arith,
        write_all-contents f (x ∷ d) w,
        write_all-contents f start_code4 w,
        write_all-contents f (x ∷ d) w1,
        append_assoc (contents f w) start_code4 (x ∷ d),
      )

  write_head-sets :
      (c : Ctx W) (f : ℕ) (d : List ℕ)
      → c.s.fp ≡ some f
      → d ≢ []
      → (write_head os c d).0 ≡ true
      → contents f (write_head os c d).1.w ≡ contents f c.w ++ (flatten (sets_of c.s) ++ annexb d)
  unfolding write_head write_param_sets write_segment_packet
  write_head-sets c f d is_open some_data e = ground (
    arith,
    write_sets-contents f (sets_of c.s) c.w,
    write_payload_annexb-contents f d (write_sets os f (sets_of c.s) c.w).1 some_data,
    append_assoc (contents f c.w) (flatten (sets_of c.s)) (annexb d),
  )

  -- The parameter sets in front of what follows: VPS, SPS and PPS of HEVC, whose `codec` is 1, and SPS and
  -- PPS of any other.
  sets_of_lem :
      (s : RecorderStream) (rest : List ℕ)
      → ((s.codec ≡ 1)
          × (flatten (sets_of s) ++ rest
              ≡ s.params.first ++ (s.params.second ++ (s.params.third ++ rest))))
        ⊎ ((s.codec ≢ 1)
            × (flatten (sets_of s) ++ rest ≡ s.params.first ++ (s.params.second ++ rest)))
  unfolding flatten
  sets_of_lem s rest =
      let p = s.params in
      elim (Bool-cases (s.codec == 1)) [
        | inl e ↦ inl (
          (==_iff s.codec 1).0 e,
          rw (e, append-nil, append_assoc)
              (ap (λ l. p.first ++ l) (append_assoc p.second p.third rest)),
        )
        | inr e ↦ inr (λ f. absurd (ground arith), rw (e, append-nil, append_assoc) refl)
      ]

  -- Given that `fwrite` appends the bytes it takes: where the writes of the head of a segment succeed, the
  -- open file grows by the VPS, the SPS and the PPS of HEVC, or by the SPS and the PPS of H.264, in this
  -- order, and then by the packet as Annex B.
  pub write_head-contents :
      (c : Ctx W) (f : ℕ) (d : List ℕ)
      → c.s.fp ≡ some f
      → d ≢ []
      → (write_head os c d).0 ≡ true
      → (let p = c.s.params in
          let after = contents f (write_head os c d).1.w in
          ((c.s.codec ≡ 1)
            × (after ≡ contents f c.w ++ (p.first ++ (p.second ++ (p.third ++ annexb d)))))
          ⊎ ((c.s.codec ≢ 1) × (after ≡ contents f c.w ++ (p.first ++ (p.second ++ annexb d)))))
  write_head-contents c f d is_open some_data e =
      let grown = write_head-sets c f d is_open some_data e in
      elim (sets_of_lem c.s (annexb d)) [
        | inl (hevc, sets) ↦ inl (hevc, grown ∙ ap (λ l. contents f c.w ++ l) sets)
        | inr (other, sets) ↦ inr (other, grown ∙ ap (λ l. contents f c.w ++ l) sets)
      ]
