-- ===== src/Stream/Env.antt =====
-- What stream.c calls: the decoders of decoder.c, which rest on FFmpeg, the clock, the allocator and the
-- environment. `W` is the state of all that.
use myworkspace.Prelude.{ℕ, Bool, List, Option}
use myworkspace.Stream.{DecodeBackend}

-- `codec_id` of FFmpeg.
pub data CodecId : Type 0 where
  codec_h264 codec_hevc codec_av1 : CodecId

-- The fields of `DecoderConfig` that differ between the streams.
pub record DecoderConfig : Type 0 where
  pub backend : DecodeBackend
  pub codec_id : CodecId
  pub width : ℕ
  pub height : ℕ
  pub defer_hw_download : Bool
  pub extra_hw_frames : ℕ

-- The sign of what `decoder_decode` returns.
pub data DecodeRet : Type 0 where
  decode_ok decode_pending decode_error : DecodeRet

-- A text as `strtol` reads it to its end: no number, a negative one, or this one.
pub data Strtol : Type 0 where
  no_number negative : Strtol
  number : ℕ → Strtol

pub record StreamEnv (W : Type 0) : Type 0 where
  pub getenv : List ℕ → Option (List ℕ)
  pub strcasecmp : List ℕ → List ℕ → Bool
  pub strtol : List ℕ → Strtol
  pub time : W → ℕ × W
  pub malloc : ℕ → W → Bool × W
  pub realloc : ℕ → W → Bool × W
  pub decoder_create : DecoderConfig → W → Option ℕ × W
  pub decoder_init : ℕ → W → Bool × W
  pub decoder_destroy : ℕ → W → W
  pub decoder_decode : ℕ → List ℕ → W → (DecodeRet × Option ℕ) × W
  pub decoder_free_frame : ℕ → W → W
