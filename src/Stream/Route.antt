-- ===== src/Stream/Route.antt =====
-- stream.c: which decoder a stream gets, and the settings from the environment.
use myworkspace.Prelude.{
  ℕ, List, [], ◌∷◌, Option, none, some, Bool, true, false, ◌&&◌, ◌||◌, ◌==◌, ltb, if◌then◌else◌,
  bytes_eq,
}
use myworkspace.Protocol.{StreamInfo}
use myworkspace.Stream.{DecodeBackend, StreamContext}
use myworkspace.Stream.Env.{
  StreamEnv, Strtol, DecoderConfig, CodecId, codec_h264, codec_hevc, codec_av1, no_number, negative,
  number,
}

-- `none` is ROUTE_ANY.
pub record DecodeRouteRule : Type 0 where
  pub codec : Option ℕ
  pub chroma : Option ℕ
  pub bitdepth : Option ℕ
  pub backend : DecodeBackend

unfoldable pub codec_id_from_stream_info : StreamInfo → CodecId
codec_id_from_stream_info info =
    if info.codec == 1 then codec_hevc else if info.codec == 2 then codec_av1 else codec_h264

abbrev pub k_decode_route_rules : List DecodeRouteRule
k_decode_route_rules =
    record { codec = some 1; chroma = some 1; bitdepth = none; backend = DecodeBackend.intel_va }
    ∷ record { codec = none; chroma = none; bitdepth = none; backend = DecodeBackend.intel_va }
    ∷ []

abbrev pub rule_fits : Option ℕ → ℕ → Bool
rule_fits none v = true
rule_fits (some k) v = k == v

unfoldable pub route_rule_matches : DecodeRouteRule → StreamInfo → Bool
route_rule_matches rule info =
    rule_fits rule.codec info.codec
    && (rule_fits rule.chroma info.chroma && rule_fits rule.bitdepth info.bitdepth)

-- The first rule that matches wins.
unfoldable pub first_route : List DecodeRouteRule → StreamInfo → DecodeBackend → DecodeBackend
first_route [] info backend = backend
first_route (rule ∷ rules) info backend =
    let rest = first_route rules info backend in
    if route_rule_matches rule info then rule.backend else rest

unfoldable pub adjust_backend_for_stream : StreamInfo → DecodeBackend → DecodeBackend
adjust_backend_for_stream info DecodeBackend.auto =
    first_route k_decode_route_rules info DecodeBackend.auto
adjust_backend_for_stream info DecodeBackend.intel_va = DecodeBackend.intel_va
adjust_backend_for_stream info DecodeBackend.nvidia = DecodeBackend.nvidia
adjust_backend_for_stream info DecodeBackend.cpu = DecodeBackend.cpu

-- `attempted_backends`.
unfoldable pub attempted_backends : DecodeBackend → List DecodeBackend
attempted_backends DecodeBackend.auto = DecodeBackend.auto ∷ DecodeBackend.cpu ∷ []
attempted_backends DecodeBackend.intel_va =
    DecodeBackend.intel_va ∷ DecodeBackend.nvidia ∷ DecodeBackend.cpu ∷ []
attempted_backends DecodeBackend.nvidia = DecodeBackend.nvidia ∷ DecodeBackend.cpu ∷ []
attempted_backends DecodeBackend.cpu = DecodeBackend.cpu ∷ []

abbrev pub is_unset : List ℕ → Bool
is_unset [] = true
is_unset (x ∷ xs) = false

-- "STREAM_DEFER_HW_DOWNLOAD" and "STREAM_NVDEC_EXTRA_HW_FRAMES".
abbrev pub defer_variable : List ℕ
defer_variable =
    b'S' ∷ b'T' ∷ b'R' ∷ b'E' ∷ b'A' ∷ b'M' ∷ b'_' ∷ b'D' ∷ b'E' ∷ b'F' ∷ b'E' ∷ b'R' ∷ b'_' ∷ b'H'
    ∷ b'W' ∷ b'_' ∷ b'D' ∷ b'O' ∷ b'W' ∷ b'N' ∷ b'L' ∷ b'O' ∷ b'A' ∷ b'D' ∷ []

abbrev pub frames_variable : List ℕ
frames_variable =
    b'S' ∷ b'T' ∷ b'R' ∷ b'E' ∷ b'A' ∷ b'M' ∷ b'_' ∷ b'N' ∷ b'V' ∷ b'D' ∷ b'E' ∷ b'C' ∷ b'_' ∷ b'E'
    ∷ b'X' ∷ b'T' ∷ b'R' ∷ b'A' ∷ b'_' ∷ b'H' ∷ b'W' ∷ b'_' ∷ b'F' ∷ b'R' ∷ b'A' ∷ b'M' ∷ b'E'
    ∷ b'S' ∷ []

module _ {W : Type 0} (env : StreamEnv W) where
  bool_of : Option (List ℕ) → Bool → Bool
  bool_of none default_value = default_value
  bool_of (some value) default_value =
      if is_unset value
      then default_value
      else if bytes_eq value (b'1' ∷ [])
          || (env.strcasecmp value (b't' ∷ b'r' ∷ b'u' ∷ b'e' ∷ [])
              || (env.strcasecmp value (b'y' ∷ b'e' ∷ b's' ∷ [])
                  || env.strcasecmp value (b'o' ∷ b'n' ∷ [])))
      then true
      else if bytes_eq value (b'0' ∷ [])
          || (env.strcasecmp value (b'f' ∷ b'a' ∷ b'l' ∷ b's' ∷ b'e' ∷ [])
              || (env.strcasecmp value (b'n' ∷ b'o' ∷ [])
                  || env.strcasecmp value (b'o' ∷ b'f' ∷ b'f' ∷ [])))
      then false
      else default_value

  unfoldable pub parse_bool_env_enabled : List ℕ → Bool → Bool
  unfolding bool_of
  parse_bool_env_enabled name default_value = bool_of (env.getenv name) default_value

  clamp : Strtol → ℕ → ℕ → ℕ → ℕ
  clamp no_number default_value min_value max_value = default_value
  clamp negative default_value min_value max_value = min_value
  clamp (number n) default_value min_value max_value =
      if ltb n min_value then min_value else if ltb max_value n then max_value else n

  int_of : Option (List ℕ) → ℕ → ℕ → ℕ → ℕ
  int_of none default_value min_value max_value = default_value
  int_of (some value) default_value min_value max_value =
      if is_unset value
      then default_value
      else clamp (env.strtol value) default_value min_value max_value

  -- The bounds that the code passes are not negative.
  unfoldable pub parse_int_env_clamped : List ℕ → ℕ → ℕ → ℕ → ℕ
  unfolding int_of clamp
  parse_int_env_clamped name default_value min_value max_value =
      int_of (env.getenv name) default_value min_value max_value

  -- The environment does not change, so the cached value is this one.
  unfoldable pub stream_defer_hw_download_enabled : Bool
  stream_defer_hw_download_enabled = parse_bool_env_enabled defer_variable true

  unfoldable pub stream_nvdec_extra_hw_frames : ℕ
  stream_nvdec_extra_hw_frames =
      parse_int_env_clamped frames_variable (if stream_defer_hw_download_enabled then 24 else 8) 0
        128

  -- `config` of `stream_init_decoder`, but for its backend.
  unfoldable pub config_of : StreamContext → DecodeBackend → DecoderConfig
  config_of s backend = record {
    backend = backend;
    codec_id = codec_id_from_stream_info s.info;
    width = s.info.width;
    height = s.info.height;
    defer_hw_download = stream_defer_hw_download_enabled;
    extra_hw_frames = stream_nvdec_extra_hw_frames;
  }
