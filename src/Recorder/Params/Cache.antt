-- ===== src/Recorder/Params/Cache.antt =====
-- compressed_recorder.c: analysing a packet changes nothing of the recorder, and of the stream only
-- the cached parameter sets.
use myworkspace.Prelude.{
  ℕ, zero, suc, ◌+◌, ◌≡◌, refl, List, Option, none, some, Bool, arith, Bool-cases, inl, inr, ltb,
  false, length,
}
use myworkspace.Recorder.Os.{Os, Ctx}
use myworkspace.Recorder.Nal.{find_start_code, slice}
use myworkspace.Recorder.Params.{
  cache_param_set, analyze_h264, analyze_hevc, analyze_nal, unit_end, analyze_unit, analyze_loop,
  analyze_from, analyze_payload, is_empty,
}

pub record OnlyParams {W : Type 0} (c d : Ctx W) : Type 0 where
  pub recorder : d.r ≡ c.r
  pub stream : d.s ≡ record c.s { params = d.s.params }

module _ {W : Type 0} where
  OnlyParams-refl : (c : Ctx W) → OnlyParams c c
  OnlyParams-refl c = record { recorder = refl; stream = refl }

  OnlyParams-trans : {a b c : Ctx W} → OnlyParams a b → OnlyParams b c → OnlyParams a c
  OnlyParams-trans p q = ground arith

module _ {W : Type 0} (os : Os W) where
  cache_param_set-OnlyParams :
      (c : Ctx W) (i : ℕ) (nal : List ℕ) → OnlyParams c (cache_param_set os c i nal)
  unfolding cache_param_set
  cache_param_set-OnlyParams c i nal = ground arith

  analyze_nal-OnlyParams :
      (c : Ctx W) (nal : List ℕ) (k : Bool) → OnlyParams c (analyze_nal os c nal k).0
  unfolding analyze_nal analyze_h264 analyze_hevc
  analyze_nal-OnlyParams c nal k = ground (
    arith,
    cache_param_set-OnlyParams c 0 nal,
    cache_param_set-OnlyParams c 1 nal,
    cache_param_set-OnlyParams c 2 nal,
  )

  analyze_unit-OnlyParams :
      (c : Ctx W) (d : List ℕ) (a : ℕ) (next : Option (ℕ × ℕ)) (k : Bool)
      → OnlyParams c (analyze_unit os c d a next k).0
  unfolding analyze_unit
  analyze_unit-OnlyParams c d a next k = elim (Bool-cases (ltb a (unit_end d a next))) [
    | inl more ↦ rw more (analyze_nal-OnlyParams c (slice d a (unit_end d a next)) k)
    | inr empty ↦ rw empty (OnlyParams-refl c)
  ]

  analyze_loop-OnlyParams :
      (n : ℕ) (d : List ℕ) (at : Option (ℕ × ℕ)) (c : Ctx W) (k : Bool)
      → OnlyParams c (analyze_loop os n d at c k).0
  unfolding analyze_loop
  analyze_loop-OnlyParams zero d at c k = OnlyParams-refl c
  analyze_loop-OnlyParams (suc n) d none c k = OnlyParams-refl c
  analyze_loop-OnlyParams (suc n) d (some (pos, sc)) c k =
      let next = find_start_code d (pos + sc) in
      let round = analyze_unit os c d (pos + sc) next k in
      OnlyParams-trans (analyze_unit-OnlyParams c d (pos + sc) next k)
        (analyze_loop-OnlyParams n d next round.0 round.1)

  pub analyze_payload-OnlyParams :
      (c : Ctx W) (d : List ℕ) → OnlyParams c (analyze_payload os c d).0
  unfolding analyze_payload
  analyze_payload-OnlyParams c d = elim (Bool-cases (is_empty d)) [
    | inl empty ↦ rw empty (OnlyParams-refl c)
    | inr more ↦ rw more (from (find_start_code d 0))
  ]
    where
      from : (at : Option (ℕ × ℕ)) → OnlyParams c (analyze_from os d at c).0
      from none = analyze_nal-OnlyParams c d false
      from (some at) = analyze_loop-OnlyParams (length d) d (some at) c false
