-- ===== src/Server/Dispatch/Handle/Keeps.antt =====
-- server.c: every packet leaves the server in order.
use myworkspace.Prelude.{
  ℕ, ◌+◌, ◌-◌, ◌<◌, ◌^◌, List, length, Option, none, some, Bool, true, false, not, ◌||◌, ◌==◌, ltb,
  leb, if-holds, ◌≡◌, arith,
}
use myworkspace.Protocol.{
  PacketHeader, StreamInfo, parse_stream_info, tcp_header_size, stream_start, video_data,
  stream_stop, heartbeat,
}
use myworkspace.Stream.{StreamManager, StreamState}
use myworkspace.Stream.Decoder.{stream_close_decoder, stream_decode_video}
use myworkspace.Stream.Decoder.Consistent.{
  stream_set_state-IsConsistent, stream_update_stats-IsConsistent,
  stream_close_decoder-IsConsistent, stream_decode_video-IsConsistent,
}
use myworkspace.Stream.Stress.{stress_test_decode}
use myworkspace.Stream.Stress.Consistent.{stress_test_decode-AllConsistent}
use myworkspace.Stream.Table.{has_stream}
use myworkspace.Watchdog.{request_idr_for_no_decode, request_idr_for_decode_stall}
use myworkspace.Server.Receive.Bounded.{IsBounded}
use myworkspace.Server.Dispatch.{ServerEnv, Live, record_stop}
use myworkspace.Server.Dispatch.Recording.{record_stop-QueueInv, record_video-QueueInv}
use myworkspace.Server.Dispatch.Handle.{
  stream_at, on_info, on_start, to_tap, to_recorder, to_copies, video_with, on_bytes, count_on,
  on_video_data, on_stop, on_type, count_packet, handle_packet,
}
use myworkspace.Server.Dispatch.Handle.Inv.{
  LiveInv, put-LiveInv, stream_at-IsConsistent, watch_stream-LiveInv, start_with-LiveInv,
}

module _ {W : Type 0} (env : ServerEnv W) where
  on_info-LiveInv :
      (l : Live W) (id : ℕ) (o : Option StreamInfo) → LiveInv l → LiveInv (on_info env l id o)
  unfolding on_info
  on_info-LiveInv l id none v = v
  on_info-LiveInv l id (some info) v = start_with-LiveInv env l id info v

  on_start-LiveInv :
      (l : Live W) (h : PacketHeader) (payload : Option (List ℕ))
      → LiveInv l
      → LiveInv (on_start env l h payload)
  unfolding on_start
  on_start-LiveInv l h payload v =
      if-holds LiveInv (leb (tcp_header_size + 16) h.length) _ _
        (λ e.
          on_info-LiveInv l h.stream_id (parse_stream_info payload (h.length - tcp_header_size)) v)
        (λ e. v)

  to_tap-LiveInv : (l : Live W) (id : ℕ) (d : List ℕ) → LiveInv l → LiveInv (to_tap env l id d)
  unfolding to_tap
  to_tap-LiveInv l id d v = record {
    server = record {
      streams = v.server.streams;
      queue = v.server.queue;
      stress = v.server.stress;
    };
    runs = v.runs;
  }

  to_recorder-LiveInv :
      (l : Live W) (id : ℕ) (d : List ℕ)
      → length d < 2 ^ 63
      → LiveInv l
      → LiveInv (to_recorder env l id d)
  unfolding to_recorder
  to_recorder-LiveInv l id d small v = record {
    server = record {
      streams = v.server.streams;
      queue = record_video-QueueInv env l.server.recorder id d l.w small v.server.queue;
      stress = v.server.stress;
    };
    runs = v.runs;
  }

  stress_test_decode-enabled :
      (mgr : StreamManager) (id : ℕ) (d : List ℕ) (w : W)
      → (stress_test_decode env.stream mgr id d w).1.0.stress_test.enabled ≡ mgr.stress_test.enabled
  unfolding stress_test_decode
  stress_test_decode-enabled mgr id d w = ground arith

  to_copies-LiveInv :
      (l : Live W) (id : ℕ) (d : List ℕ) → LiveInv l → LiveInv (to_copies env l id d)
  unfolding to_copies
  to_copies-LiveInv l id d v =
      if-holds LiveInv l.server.stress_test_enabled _ _
        (λ e. record {
          server = record {
            streams =
                stress_test_decode-AllConsistent env.stream l.server.stream_mgr id d l.w
                  v.server.streams;
            queue = v.server.queue;
            stress = λ on. e;
          };
          runs = v.runs;
        })
        (λ e. v)

  video_with-LiveInv :
      (l : Live W) (id : ℕ) (d : List ℕ)
      → length d < 2 ^ 63
      → LiveInv l
      → LiveInv (video_with env l id d)
  unfolding video_with
  video_with-LiveInv l id d small v =
      let l1 = to_recorder env (to_tap env l id d) id d in
      let v1 = to_recorder-LiveInv (to_tap env l id d) id d small (to_tap-LiveInv l id d v) in
      let v2 = put-LiveInv l1 id (stream_decode_video env.stream (stream_at l1 id) d l1.w).1 v1 (
        stream_decode_video-IsConsistent env.stream (stream_at l1 id) d l1.w
          (stream_at-IsConsistent env l1 id v1)) in
      to_copies-LiveInv _ id d (
        watch_stream-LiveInv env request_idr_for_decode_stall _ id
          (watch_stream-LiveInv env request_idr_for_no_decode _ id v2))

  on_bytes-LiveInv :
      (l : Live W) (h : PacketHeader) (payload : Option (List ℕ))
      → IsBounded payload
      → LiveInv l
      → LiveInv (on_bytes env l h payload)
  unfolding on_bytes
  on_bytes-LiveInv l h none small v = v
  on_bytes-LiveInv l h (some d) small v =
      if-holds LiveInv (ltb tcp_header_size h.length) _ _
        (λ e. video_with-LiveInv l h.stream_id d (omega arith) v) (λ e. v)

  count_on-LiveInv :
      (l : Live W) (h : PacketHeader) (is_frame : Bool)
      → LiveInv l
      → LiveInv (count_on env l h is_frame)
  unfolding count_on
  count_on-LiveInv l h is_frame v = put-LiveInv l h.stream_id _ v (
      stream_update_stats-IsConsistent env.stream (stream_at l h.stream_id) h.length is_frame l.w
        (stream_at-IsConsistent env l h.stream_id v))

  on_video_data-LiveInv :
      (l : Live W) (h : PacketHeader) (payload : Option (List ℕ))
      → IsBounded payload
      → LiveInv l
      → LiveInv (on_video_data env l h payload)
  unfolding on_video_data
  on_video_data-LiveInv l h payload small v =
      on_bytes-LiveInv (count_on env l h true) h payload small (count_on-LiveInv l h true v)

  on_stop-LiveInv : (l : Live W) (h : PacketHeader) → LiveInv l → LiveInv (on_stop env l h)
  unfolding on_stop
  on_stop-LiveInv l h v =
      let (r, w) = record_stop env l.server.recorder h.stream_id l.w in
      let (s1, w1) = stream_close_decoder env.stream (stream_at l h.stream_id) w in
      put-LiveInv (record l { server = record l.server { recorder = r } }) h.stream_id _
        (record {
          server = record {
            streams = v.server.streams;
            queue = record_stop-QueueInv env l.server.recorder h.stream_id l.w v.server.queue;
            stress = v.server.stress;
          };
          runs = v.runs;
        })
        (stream_set_state-IsConsistent env.stream s1 StreamState.idle w1
          (stream_close_decoder-IsConsistent env.stream (stream_at l h.stream_id) w
            (stream_at-IsConsistent env l h.stream_id v))
          (λ e. absurd (ground (arith, e))))

  on_type-LiveInv :
      (l : Live W) (h : PacketHeader) (payload : Option (List ℕ))
      → IsBounded payload
      → LiveInv l
      → LiveInv (on_type env l h payload)
  unfolding on_type
  on_type-LiveInv l h payload small v =
      if-holds LiveInv (h.type == stream_start) _ _ (λ e. on_start-LiveInv l h payload v)
        (λ e.
          if-holds LiveInv (h.type == video_data) _ _
            (λ e. on_video_data-LiveInv l h payload small v)
            (λ e.
              if-holds LiveInv (h.type == stream_stop) _ _ (λ e. on_stop-LiveInv l h v)
                (λ e.
                  if-holds LiveInv (h.type == heartbeat) _ _ (λ e. count_on-LiveInv l h false v)
                    (λ e. v))))

  count_packet-LiveInv :
      (l : Live W) (h : PacketHeader) → LiveInv l → LiveInv (count_packet env l h)
  unfolding count_packet
  count_packet-LiveInv l h v = record {
    server = record {
      streams = v.server.streams;
      queue = v.server.queue;
      stress = v.server.stress;
    };
    runs = v.runs;
  }

  -- Every packet keeps the server in order.
  pub handle_packet-LiveInv :
      (h : PacketHeader) (payload : Option (List ℕ)) (l : Live W)
      → IsBounded payload
      → LiveInv l
      → LiveInv (handle_packet env h payload l)
  unfolding handle_packet
  handle_packet-LiveInv h payload l small v =
      let v1 = on_type-LiveInv l h payload small v in
      if-holds LiveInv (l.hung || not (has_stream l.server.stream_mgr h.stream_id)) _ _ (λ e. v)
        (λ e.
          if-holds LiveInv (on_type env l h payload).hung _ _ (λ e. v1)
            (λ e. count_packet-LiveInv (on_type env l h payload) h v1))
