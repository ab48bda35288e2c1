-- ===== src/Server/Dispatch/Handle/Restart.antt =====
-- server.c, `handle_packet`: a STREAM_START on a stream that has a decoder.
use myworkspace.Prelude.{
  ℕ, ◌+◌, ◌-◌, ◌≤◌, List, Option, some, Bool, true, not, ◌&&◌, ◌||◌, ◌==◌, leb, if-holds, ◌≡◌,
  arith, refl, subst, sym, ◌∙◌,
}
use myworkspace.Protocol.{
  PacketHeader, StreamInfo, parse_stream_info, tcp_header_size, stream_start,
}
use myworkspace.Stream.{StreamContext, StreamManager, StreamState, DecodeBackend}
use myworkspace.Stream.Decoder.{
  stream_set_info, stream_set_state, stream_init_decoder, same_state, is_active,
}
use myworkspace.Stream.Stress.{StressStart, start_stress_test}
use myworkspace.Stream.Stress.Source.{start_stress_test-Starts}
use myworkspace.Stream.Table.{has_stream}
use myworkspace.Watchdog.{StreamWatch}
use myworkspace.Server.Dispatch.{
  ServerEnv, Live, put_watch, run_watch, get_decode_backend, stress_variable, copies_variable,
}
use myworkspace.Server.Dispatch.Handle.{
  reset_watch, put, stream_at, copies_of, stress_wanted, with_stress, maybe_stress, begin_stream,
  tell_recorder_start, watch_stream, ask_now, start_with, on_info, on_start, on_type, count_packet,
  handle_packet,
}
use myworkspace.Server.Dispatch.Handle.Inv.{LiveInv, off_lem, begun, begun-LiveInv}

-- The stream is active with this information and this decoder.
pub record Restarted (new : StreamInfo) (ctx : Option ℕ) (s : StreamContext) : Type 0 where
  pub info : s.info ≡ new
  pub active : is_active s.state ≡ true
  pub decoder : s.decoder_ctx ≡ ctx
  pub initialized : s.decoder_initialized ≡ true

same_lem :
    (state : StreamState) → same_state state StreamState.active ≡ true → is_active state ≡ true
same_lem StreamState.idle e = absurd (ground (arith, e))
same_lem StreamState.connecting e = absurd (ground (arith, e))
same_lem StreamState.active e = refl
same_lem StreamState.error e = absurd (ground (arith, e))

put-at :
    {W : Type 0} (l : Live W) (id : ℕ) (x : StreamContext × W) → stream_at (put l id x) id ≡ x.0
put-at l id x = ground arith

module _ {W : Type 0} (env : ServerEnv W) where
  set_active-Restarted :
      (s : StreamContext) (w : W)
      → s.decoder_initialized ≡ true
      → Restarted s.info s.decoder_ctx (stream_set_state env.stream s StreamState.active w).0
  unfolding stream_set_state
  set_active-Restarted s w has =
      if-holds (λ (r : StreamContext × W). Restarted s.info s.decoder_ctx r.0)
        (same_state s.state StreamState.active) _ _
        (λ e. record {
          info = refl;
          active = same_lem s.state e;
          decoder = refl;
          initialized = has;
        })
        (λ e. record { info = refl; active = refl; decoder = refl; initialized = has })

  begin_stream-Restarted :
      (s : StreamContext) (info : StreamInfo) (w : W)
      → s.decoder_initialized ≡ true
      → Restarted info s.decoder_ctx (begin_stream env s info w).0
  unfolding begin_stream reset_watch stream_set_info stream_init_decoder
  begin_stream-Restarted s info w has =
      let s0 = stream_set_info s info in
      let (s1, w1) = stream_set_state env.stream s0 StreamState.active w in
      let h = set_active-Restarted s0 w has in
      if-holds (λ (r : Bool × (StreamContext × W)). Restarted info s.decoder_ctx r.1.0)
        s1.decoder_initialized _ _
        (λ e. record {
          info = h.info;
          active = h.active;
          decoder = h.decoder;
          initialized = h.initialized;
        })
        (λ e. absurd (ground (arith, h.initialized)))

  with_stress-slot :
      (l : Live W) (copies source : ℕ) (r : StressStart × (StreamManager × W))
      → stream_at (with_stress env l copies r) source ≡ r.1.0.streams source
  unfolding with_stress
  with_stress-slot l copies source (result, (mgr, w)) = refl

  maybe_stress-slot :
      (l : Live W) (id : ℕ) (backend : DecodeBackend)
      → LiveInv l
      → stream_at (maybe_stress env l id backend) id ≡ stream_at l id
  unfolding maybe_stress
  maybe_stress-slot l id backend v =
      let copies = copies_of env l.server.stress_test_copies (env.stream.getenv copies_variable) in
      let mgr = l.server.stream_mgr in
      let start = start_stress_test env.stream mgr id copies backend l.w in
      if-holds (λ (r : Live W). stream_at r id ≡ stream_at l id)
        (not l.server.stress_test_enabled && stress_wanted env (env.stream.getenv stress_variable))
        _ _
        (λ e.
          let h =
            start_stress_test-Starts env.stream mgr id copies backend l.w
              (off_lem mgr.stress_test.enabled l.server.stress_test_enabled _ v.server.stress e) in
          with_stress-slot l copies id start ∙ h.slot)
        (λ e. refl)

  watch_stream-Restarted :
      (watch : StreamWatch → ℕ → ℕ → Bool × StreamWatch) (l : Live W) (id : ℕ) (info : StreamInfo)
      (ctx : Option ℕ)
      → Restarted info ctx (stream_at l id)
      → Restarted info ctx (stream_at (watch_stream env watch l id) id)
  unfolding watch_stream run_watch put_watch
  watch_stream-Restarted watch l id info ctx h =
      subst (Restarted info ctx)
        (sym (put-at l id (run_watch env watch l.server (stream_at l id) l.w)))
        (record {
          info = h.info;
          active = h.active;
          decoder = h.decoder;
          initialized = h.initialized;
        })

  start_with-Restarted :
      (l : Live W) (id : ℕ) (info : StreamInfo)
      → LiveInv l
      → (stream_at l id).decoder_initialized ≡ true
      → Restarted info (stream_at l id).decoder_ctx (stream_at (start_with env l id info) id)
  unfolding start_with tell_recorder_start
  start_with-Restarted l id info v has =
      let r = begin_stream env (stream_at l id) info l.w in
      let l1 = record (put l id r) { current_stream_id = id } in
      let ctx = (stream_at l id).decoder_ctx in
      subst (Restarted info ctx)
        (sym (
          maybe_stress-slot (begun env l id info) id (get_decode_backend env)
            (begun-LiveInv env l id info v)))
        (watch_stream-Restarted (ask_now env) (tell_recorder_start env l1 id info) id info ctx (
          subst (Restarted info ctx) (sym (put-at l id r))
            (begin_stream-Restarted (stream_at l id) info l.w has)))

  -- A STREAM_START that can be read, on a stream of the table that has a decoder, in a server in order:
  -- the stream is active with the new information, and its decoder is still the one it had, whatever the
  -- new codec and size are.
  pub handle_packet-Restarted :
      (h : PacketHeader) (payload : Option (List ℕ)) (l : Live W) (info : StreamInfo)
      → LiveInv l
      → has_stream l.server.stream_mgr h.stream_id ≡ true
      → h.type ≡ stream_start
      → tcp_header_size + 16 ≤ h.length
      → parse_stream_info payload (h.length - tcp_header_size) ≡ some info
      → (stream_at l h.stream_id).decoder_initialized ≡ true
      → Restarted info
          (stream_at l h.stream_id).decoder_ctx
          (stream_at (handle_packet env h payload l) h.stream_id)
  unfolding handle_packet on_type on_start on_info count_packet
  handle_packet-Restarted h payload l info v there start long parsed has =
      let id = h.stream_id in
      let P = λ (l1 : Live W). Restarted info (stream_at l id).decoder_ctx (stream_at l1 id) in
      let first : P (on_type env l h payload) =
        if-holds P (h.type == stream_start) _ _
          (λ e.
            if-holds P (leb (tcp_header_size + 16) h.length) _ _
              (λ e.
                subst (λ o. P (on_info env l id o)) (sym parsed)
                  (start_with-Restarted l id info v has))
              (λ e. absurd (ground arith)))
          (λ e. absurd (ground arith)) in
      if-holds P (l.hung || not (has_stream l.server.stream_mgr id)) _ _
        (λ e. absurd (ground (arith, v.runs)))
        (λ e. if-holds P (on_type env l h payload).hung _ _ (λ e. first) (λ e. first))
