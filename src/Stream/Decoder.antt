-- ===== src/Stream/Decoder.antt =====
-- stream.c: what is done with one stream under its lock.
pub mod Consistent
use myworkspace.Prelude.{
  ℕ, ◌+◌, List, [], ◌∷◌, Option, none, some, Bool, true, false, not, leb, if◌then◌else◌, is_some,
  add64,
}
use myworkspace.Protocol.{StreamInfo}
use myworkspace.Stream.{
  StreamContext, StreamState, StreamDecodeStats, DecodeBackend, zero_decode_stats,
}
use myworkspace.Stream.Env.{StreamEnv, DecodeRet, decode_ok, decode_pending, decode_error}
use myworkspace.Stream.Route.{adjust_backend_for_stream, attempted_backends, config_of}

abbrev pub same_state : StreamState → StreamState → Bool
same_state StreamState.idle StreamState.idle = true
same_state StreamState.connecting StreamState.connecting = true
same_state StreamState.active StreamState.active = true
same_state StreamState.error StreamState.error = true
same_state _ _ = false

abbrev pub is_active : StreamState → Bool
is_active StreamState.active = true
is_active _ = false

unfoldable pub stream_set_info : StreamContext → StreamInfo → StreamContext
stream_set_info s info = record s { info = info; info_received = true }

module _ {W : Type 0} (env : StreamEnv W) where
  unfoldable pub stream_set_state : StreamContext → StreamState → W → StreamContext × W
  stream_set_state s state w =
      if same_state s.state state
      then (s, w)
      else if is_active state
      then (let (now, w1) = env.time w in (record s { state = state; connect_time = now }, w1))
      else (record s { state = state }, w)

  unfoldable pub stream_update_stats : StreamContext → ℕ → Bool → W → StreamContext × W
  stream_update_stats s bytes is_frame w =
      let s1 = record s {
        packets_received = add64 s.packets_received 1;
        bytes_received = add64 s.bytes_received bytes;
      } in
      if is_frame
      then (let (now, w1) = env.time w in
          (record s1 { frames_received = add64 s1.frames_received 1; last_frame_time = now }, w1))
      else (s1, w)

  -- `decoder_create` and `decoder_init` with one backend; a context that fails is destroyed.
  after_init : ℕ → Bool × W → Option ℕ × W
  after_init ctx (true, w) = (some ctx, w)
  after_init ctx (false, w) = (none, env.decoder_destroy ctx w)

  after_create : Option ℕ × W → Option ℕ × W
  after_create (none, w) = (none, w)
  after_create (some ctx, w) = after_init ctx (env.decoder_init ctx w)

  unfoldable pub try_backend : StreamContext → DecodeBackend → W → Option ℕ × W
  unfolding after_create after_init
  try_backend s backend w = after_create (env.decoder_create (config_of env s backend) w)

  -- The loop over the backends: the first that comes up is taken.
  unfoldable pub try_backends : StreamContext → List DecodeBackend → W → Option ℕ × W
  try_backends s [] w = (none, w)
  try_backends s (backend ∷ rest) w =
      let (ctx, w1) = try_backend s backend w in
      let next = try_backends s rest w1 in if is_some ctx then (ctx, w1) else next

  take_decoder : StreamContext → Option ℕ × W → Bool × (StreamContext × W)
  take_decoder s (none, w) = (false, (s, w))
  take_decoder s (some ctx, w) =
      let (now, w1) = env.time w in
      (
        true,
        (
          record s {
            decoder_ctx = some ctx;
            decoder_initialized = true;
            decode_stats = record zero_decode_stats { last_fps_calc_time = now };
          },
          w1,
        ),
      )

  unfoldable pub stream_init_decoder :
      StreamContext → DecodeBackend → W → Bool × (StreamContext × W)
  unfolding take_decoder
  stream_init_decoder s backend w =
      if s.decoder_initialized
      then (true, (s, w))
      else take_decoder s
          (try_backends s (attempted_backends (adjust_backend_for_stream s.info backend)) w)

  free_frame : Option ℕ → W → W
  free_frame none w = w
  free_frame (some frame) w = env.decoder_free_frame frame w

  free_decoder : Option ℕ → W → W
  free_decoder none w = w
  free_decoder (some ctx) w = env.decoder_destroy ctx w

  unfoldable pub stream_close_decoder : StreamContext → W → StreamContext × W
  unfolding free_frame free_decoder
  stream_close_decoder s w = (
    record s { last_frame = none; decoder_ctx = none; decoder_initialized = false },
    free_decoder s.decoder_ctx (free_frame s.last_frame w),
  )

  -- The statistics of a decoded frame.
  unfoldable pub count_decoded : StreamDecodeStats → ℕ → StreamDecodeStats
  count_decoded st now =
      let decoded = add64 st.frames_decoded 1 in
      if leb (st.last_fps_calc_time + 1) now
      then record st {
        frames_decoded = decoded;
        last_frames_decoded = decoded;
        last_fps_calc_time = now;
      }
      else record st { frames_decoded = decoded }

  -- What follows `decoder_decode`: the new frame takes the place of the last.
  unfoldable pub on_decoded :
      StreamContext → (DecodeRet × Option ℕ) × W → DecodeRet × (StreamContext × W)
  unfolding free_frame
  on_decoded s ((decode_ok, some frame), w) =
      let (now, w1) = env.time w in
      (
        decode_ok,
        (
          record s { decode_stats = count_decoded s.decode_stats now; last_frame = some frame },
          free_frame s.last_frame w1,
        ),
      )
  on_decoded s ((decode_ok, none), w) = (decode_ok, (s, w))
  on_decoded s ((decode_pending, frame), w) = (decode_pending, (s, w))
  on_decoded s ((decode_error, frame), w) = (
    decode_error,
    (
      record s {
        decode_stats = record s.decode_stats {
          frames_dropped = add64 s.decode_stats.frames_dropped 1;
        };
      },
      w,
    ),
  )

  decode_with : StreamContext → Option ℕ → List ℕ → W → DecodeRet × (StreamContext × W)
  decode_with s none d w = on_decoded s ((decode_error, none), w)
  decode_with s (some ctx) d w = on_decoded s (env.decoder_decode ctx d w)

  -- A stream with `decoder_initialized` has a context; `decoder_decode` on NULL fails.
  unfoldable pub stream_decode_video : StreamContext → List ℕ → W → DecodeRet × (StreamContext × W)
  unfolding decode_with
  stream_decode_video s d w =
      if not s.decoder_initialized then (decode_error, (s, w)) else decode_with s s.decoder_ctx d w
