-- ===== src/Stream/Decoder/Consistent.antt =====
-- stream.c: the flags of a stream tell what it holds.
use myworkspace.Prelude.{ℕ, List, Option, none, some, Bool, true, not, is_some, ◌≡◌, if-holds, refl}
use myworkspace.Protocol.{StreamInfo}
use myworkspace.Stream.{StreamContext, StreamState, DecodeBackend}
use myworkspace.Stream.Env.{StreamEnv, DecodeRet, decode_ok, decode_pending, decode_error}
use myworkspace.Stream.Route.{adjust_backend_for_stream, attempted_backends}
use myworkspace.Stream.Decoder.{
  is_active, same_state, stream_set_info, stream_set_state, stream_update_stats,
  stream_init_decoder, take_decoder, try_backends, stream_close_decoder, on_decoded,
  stream_decode_video, decode_with,
}

-- `decoder_initialized` is set exactly where there is a decoder, and an active stream has information.
pub record IsConsistent (s : StreamContext) : Type 0 where
  pub decoder : s.decoder_initialized ≡ is_some s.decoder_ctx
  pub informed : is_active s.state ≡ true → s.info_received ≡ true

pub stream_set_info-IsConsistent :
    (s : StreamContext) (info : StreamInfo) → IsConsistent s → IsConsistent (stream_set_info s info)
unfolding stream_set_info
stream_set_info-IsConsistent s info v = record { decoder = v.decoder; informed = λ e. refl }

module _ {W : Type 0} (env : StreamEnv W) where
  pub stream_set_state-IsConsistent :
      (s : StreamContext) (state : StreamState) (w : W)
      → IsConsistent s
      → (is_active state ≡ true → s.info_received ≡ true)
      → IsConsistent (stream_set_state env s state w).0
  unfolding stream_set_state
  stream_set_state-IsConsistent s state w v has =
      if-holds (λ (r : StreamContext × W). IsConsistent r.0) (same_state s.state state) _ _ (λ e. v)
        (λ e.
          if-holds (λ (r : StreamContext × W). IsConsistent r.0) (is_active state) _ _
            (λ e. record { decoder = v.decoder; informed = has })
            (λ e. record { decoder = v.decoder; informed = has }))

  pub stream_update_stats-IsConsistent :
      (s : StreamContext) (n : ℕ) (is_frame : Bool) (w : W)
      → IsConsistent s
      → IsConsistent (stream_update_stats env s n is_frame w).0
  unfolding stream_update_stats
  stream_update_stats-IsConsistent s n is_frame w v =
      if-holds (λ (r : StreamContext × W). IsConsistent r.0) is_frame _ _
        (λ e. record { decoder = v.decoder; informed = v.informed })
        (λ e. record { decoder = v.decoder; informed = v.informed })

  take_decoder-IsConsistent :
      (s : StreamContext) (r : Option ℕ × W)
      → IsConsistent s
      → IsConsistent (take_decoder env s r).1.0
  unfolding take_decoder
  take_decoder-IsConsistent s (none, w) v = v
  take_decoder-IsConsistent s (some ctx, w) v = record { decoder = refl; informed = v.informed }

  pub stream_init_decoder-IsConsistent :
      (s : StreamContext) (backend : DecodeBackend) (w : W)
      → IsConsistent s
      → IsConsistent (stream_init_decoder env s backend w).1.0
  unfolding stream_init_decoder
  stream_init_decoder-IsConsistent s backend w v =
      if-holds (λ (r : Bool × (StreamContext × W)). IsConsistent r.1.0) s.decoder_initialized _ _
        (λ e. v)
        (λ e.
          take_decoder-IsConsistent s
            (try_backends env s (attempted_backends (adjust_backend_for_stream s.info backend)) w)
            v)

  pub stream_close_decoder-IsConsistent :
      (s : StreamContext) (w : W) → IsConsistent s → IsConsistent (stream_close_decoder env s w).0
  unfolding stream_close_decoder
  stream_close_decoder-IsConsistent s w v = record { decoder = refl; informed = v.informed }

  on_decoded-IsConsistent :
      (s : StreamContext) (r : (DecodeRet × Option ℕ) × W)
      → IsConsistent s
      → IsConsistent (on_decoded env s r).1.0
  unfolding on_decoded
  on_decoded-IsConsistent s ((decode_ok, some frame), w) v = record {
    decoder = v.decoder;
    informed = v.informed;
  }
  on_decoded-IsConsistent s ((decode_ok, none), w) v = v
  on_decoded-IsConsistent s ((decode_pending, frame), w) v = v
  on_decoded-IsConsistent s ((decode_error, frame), w) v = record {
    decoder = v.decoder;
    informed = v.informed;
  }

  decode_with-IsConsistent :
      (s : StreamContext) (o : Option ℕ) (d : List ℕ) (w : W)
      → IsConsistent s
      → IsConsistent (decode_with env s o d w).1.0
  unfolding decode_with
  decode_with-IsConsistent s none d w v = on_decoded-IsConsistent s ((decode_error, none), w) v
  decode_with-IsConsistent s (some ctx) d w v =
      on_decoded-IsConsistent s (env.decoder_decode ctx d w) v

  pub stream_decode_video-IsConsistent :
      (s : StreamContext) (d : List ℕ) (w : W)
      → IsConsistent s
      → IsConsistent (stream_decode_video env s d w).1.0
  unfolding stream_decode_video
  stream_decode_video-IsConsistent s d w v =
      if-holds (λ (r : DecodeRet × (StreamContext × W)). IsConsistent r.1.0)
        (not s.decoder_initialized) _ _ (λ e. v)
        (λ e. decode_with-IsConsistent s s.decoder_ctx d w v)
