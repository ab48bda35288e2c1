-- ===== src/Recorder/Params.antt =====
-- compressed_recorder.c: `analyze_payload` looks at each NAL unit of a packet, caches the parameter
-- sets of the stream's codec and tells whether the packet has a keyframe.
pub mod Cache
use myworkspace.Prelude.{
  ℕ, zero, suc, ◌+◌, ◌-◌, ◌/◌, ◌%◌, List, [], ◌∷◌, ◌++◌, Option, none, some, Bool, true, false,
  ◌&&◌, ◌||◌, leb, ltb, ◌==◌, if◌then◌else◌, length, bytes_eq,
}
use myworkspace.Protocol.{byte_at}
use myworkspace.Recorder.{ParamSets, RecorderStream, start_code4, param_set_limit}
use myworkspace.Recorder.Os.{Os, Ctx}
use myworkspace.Recorder.Nal.{find_start_code, trim_end, slice}

abbrev pub param_at : ParamSets → ℕ → List ℕ
param_at p index = if index == 0 then p.first else if index == 1 then p.second else p.third

abbrev pub set_param : ParamSets → ℕ → List ℕ → ParamSets
set_param p index v =
    if index == 0
    then record p { first = v }
    else if index == 1
    then record p { second = v }
    else record p { third = v }

abbrev pub is_empty : List ℕ → Bool
is_empty [] = true
is_empty (x ∷ xs) = false

-- The NAL types of H.264 and of HEVC.
abbrev pub nal_type_h264 : List ℕ → ℕ
nal_type_h264 nal = byte_at nal 0 % 32

abbrev pub nal_type_hevc : List ℕ → ℕ
nal_type_hevc nal = byte_at nal 0 / 2 % 64

unfoldable pub params_ready : RecorderStream → Bool
params_ready s =
    if s.codec == 0
    then ltb 0 (length s.params.first) && ltb 0 (length s.params.second)
    else if s.codec == 1
    then ltb 0 (length s.params.first)
      && (ltb 0 (length s.params.second) && ltb 0 (length s.params.third))
    else false

-- Where the unit from `nal_start` ends: before the zeros that precede the next start code or the end.
abbrev pub unit_end : List ℕ → ℕ → Option (ℕ × ℕ) → ℕ
unit_end d nal_start none = trim_end d nal_start (length d)
unit_end d nal_start (some (next, sc)) = trim_end d nal_start next

module _ {W : Type 0} (os : Os W) where
  store_copy : Ctx W → ℕ → List ℕ → Bool × W → Ctx W
  store_copy c index copy (true, w) = record c {
    w = w;
    s = record c.s { params = set_param c.s.params index copy };
  }
  store_copy c index copy (false, w) = record c { w = w }

  unfoldable pub cache_param_set : Ctx W → ℕ → List ℕ → Ctx W
  unfolding store_copy
  cache_param_set c index nal =
      if leb 3 index || (is_empty nal || ltb param_set_limit (length nal))
      then c
      else if bytes_eq (param_at c.s.params index) (start_code4 ++ nal)
      then c
      else store_copy c index (start_code4 ++ nal) (os.malloc (4 + length nal) c.w)

  unfoldable pub analyze_h264 : Ctx W → List ℕ → Bool → Ctx W × Bool
  analyze_h264 c nal has_keyframe =
      if nal_type_h264 nal == 7
      then (cache_param_set c 0 nal, has_keyframe)
      else if nal_type_h264 nal == 8
      then (cache_param_set c 1 nal, has_keyframe)
      else (c, (if nal_type_h264 nal == 5 then true else has_keyframe))

  -- Types 16 to 21 are the keyframes.
  unfoldable pub analyze_hevc : Ctx W → List ℕ → Bool → Ctx W × Bool
  analyze_hevc c nal has_keyframe =
      if nal_type_hevc nal == 32
      then (cache_param_set c 0 nal, has_keyframe)
      else if nal_type_hevc nal == 33
      then (cache_param_set c 1 nal, has_keyframe)
      else if nal_type_hevc nal == 34
      then (cache_param_set c 2 nal, has_keyframe)
      else (
        c,
        (if (leb 16 (nal_type_hevc nal) && leb (nal_type_hevc nal) 18)
              || (nal_type_hevc nal == 19 || (nal_type_hevc nal == 20 || nal_type_hevc nal == 21))
            then true
            else has_keyframe),
      )

  unfoldable pub analyze_nal : Ctx W → List ℕ → Bool → Ctx W × Bool
  analyze_nal c nal has_keyframe =
      if is_empty nal
      then (c, has_keyframe)
      else if c.s.codec == 0
      then analyze_h264 c nal has_keyframe
      else if c.s.codec == 1 && leb 2 (length nal)
      then analyze_hevc c nal has_keyframe
      else (c, has_keyframe)

  -- One round: the unit from `nal_start` to the next start code, less its trailing zeros.
  unfoldable pub analyze_unit : Ctx W → List ℕ → ℕ → Option (ℕ × ℕ) → Bool → Ctx W × Bool
  analyze_unit c d nal_start next has_keyframe =
      if ltb nal_start (unit_end d nal_start next)
      then analyze_nal c (slice d nal_start (unit_end d nal_start next)) has_keyframe
      else (c, has_keyframe)

  -- `while (pos != SIZE_MAX)`, with a bound on its rounds.
  unfoldable pub analyze_loop : ℕ → List ℕ → Option (ℕ × ℕ) → Ctx W → Bool → Ctx W × Bool
  analyze_loop zero d at c has_keyframe = (c, has_keyframe)
  analyze_loop (suc k) d none c has_keyframe = (c, has_keyframe)
  analyze_loop (suc k) d (some (pos, sc)) c has_keyframe =
      let next = find_start_code d (pos + sc) in
      let (c', found) = analyze_unit c d (pos + sc) next has_keyframe in
      analyze_loop k d next c' found

  abbrev pub analyze_from : List ℕ → Option (ℕ × ℕ) → Ctx W → Ctx W × Bool
  analyze_from d none c = analyze_nal c d false
  analyze_from d (some at) c = analyze_loop (length d) d (some at) c false

  -- The second part of the result is `analysis.has_keyframe`. Each round moves past a start code,
  -- so `length d` rounds are enough.
  unfoldable pub analyze_payload : Ctx W → List ℕ → Ctx W × Bool
  analyze_payload c d = if is_empty d then (c, false) else analyze_from d (find_start_code d 0) c
