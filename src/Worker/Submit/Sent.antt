-- ===== src/Worker/Submit/Sent.antt =====
-- video_callbacks.c: what the server gets of a frame that counts as sent.
use myworkspace.Prelude.{
  ℕ, ◌≤◌, ◌≡◌, ◌++◌, List, length, some, ◌==◌, if◌then◌else◌, if-holds, arith, refl, ap, ap₂, ◌∙◌,
  add64, ◌*◌, not, ltb,
}
use mathlib.Core.List.{flatten}
use myworkspace.Protocol.{max_streams}
use myworkspace.Sender.{TcpSender, Progress}
use myworkspace.Sender.Net.{Net}
use myworkspace.Sender.Buffer.{grow}
use myworkspace.Sender.Send.Wire.{SocketLaws}
use myworkspace.Sender.Packets.{video_packet, send_video}
use myworkspace.Sender.Packets.Wire.{send_video-received}
use myworkspace.Worker.{Worker, DecodeUnit}
use myworkspace.Worker.Submit.{
  SubmitOutcome, ensure_frame_buffer, after_frame_grow, after_send, send_unit, when_connected,
  ensure_connected, submit, count_sent,
}

-- One packet with `d`, which fits the buffer, went out on the socket and was counted.
pub record Delivered {W : Type 0} (peer : ℕ → W → List ℕ) (fd : ℕ) (v : Worker) (w : W) (d : List ℕ)
    (out : Worker × W) : Type 0 where
  pub wire : peer fd out.1 ≡ peer fd w ++ video_packet v.tcp_sender.config.stream_id d
  pub frames : out.0.stats_frames_sent ≡ add64 v.stats_frames_sent 1
  pub fits : length d ≤ out.0.frame_buffer_size
  pub bytes : out.0.stats_bytes_sent ≡ add64 v.stats_bytes_sent (length d)

module _ {W : Type 0} {net : Net W} {wire : ℕ → W → List ℕ} (laws : SocketLaws net wire)
    (clock_sends : (fd : ℕ) (w : W) → wire fd (net.now_monotonic_ns w).1 ≡ wire fd w)
    (rounds fd : ℕ) where
  after_send-Delivered :
      (v v0 : Worker) (w w0 : W) (since : ℕ) (d : List ℕ) (r : Progress × (TcpSender × W))
      → v.tcp_sender.config ≡ v0.tcp_sender.config
      → (r.0 ≡ Progress.succeeded
          → wire fd r.1.1 ≡ wire fd w0 ++ video_packet v0.tcp_sender.config.stream_id d)
      → v.stats_frames_sent ≡ v0.stats_frames_sent
      → v.stats_bytes_sent ≡ v0.stats_bytes_sent
      → length d ≤ v.frame_buffer_size
      → (after_send net rounds v since (length d) r).0 ≡ SubmitOutcome.frame_sent
      → Delivered wire fd v0 w0 d (after_send net rounds v since (length d) r).1
  unfolding after_send count_sent
  after_send-Delivered v v0 w w0 since d (Progress.succeeded, (s, w1)) same went frames bytes fits
        e =
      record {
        wire = clock_sends fd w1 ∙ went refl;
        frames = ap (λ n. add64 n 1) frames;
        fits = fits;
        bytes = ap (λ n. add64 n (length d)) bytes;
      }
  after_send-Delivered v v0 w w0 since d (Progress.failed, (s, w1)) same went frames bytes fits e =
      absurd (ground (arith, e))
  after_send-Delivered v v0 w w0 since d (Progress.running, (s, w1)) same went frames bytes fits e =
      absurd (ground (arith, e))

  -- The buffer is the worker's own.
  ensure_frame_buffer-keeps :
      (v : Worker) (needed : ℕ) (w : W)
      → let (v1, w1) = (ensure_frame_buffer net rounds v needed w).1 in
        (wire fd w1 ≡ wire fd w)
        × (v1.tcp_sender ≡ v.tcp_sender)
        × (v1.stats_frames_sent ≡ v.stats_frames_sent)
        × (v1.stats_bytes_sent ≡ v.stats_bytes_sent)
  unfolding ensure_frame_buffer after_frame_grow
  ensure_frame_buffer-keeps v needed w =
      let size =
        grow 64 needed (if v.frame_buffer_size == 0 then 1024 * 1024 else v.frame_buffer_size) in
      ground (arith, laws.realloc_sends fd size w)

  send_unit-Delivered :
      (v : Worker) (since : ℕ) (u : DecodeUnit) (w : W)
      → v.tcp_sender.sock_fd ≡ some fd
      → 1 ≤ v.tcp_sender.config.stream_id
      → v.tcp_sender.config.stream_id ≤ max_streams
      → (send_unit net rounds v since u w).0 ≡ SubmitOutcome.frame_sent
      → Delivered wire fd v w (flatten u.buffer_list) (send_unit net rounds v since u w).1
  unfolding send_unit
  send_unit-Delivered v since u w held s1 s2 =
      let d = flatten u.buffer_list in
      let P = λ (out : SubmitOutcome × (Worker × W)).
        out.0 ≡ SubmitOutcome.frame_sent → Delivered wire fd v w d out.1 in
      let (got, (v1, w1)) = ensure_frame_buffer net rounds v u.full_length w in
      let (quiet, same, frames, bytes) = ensure_frame_buffer-keeps v u.full_length w in
      if-holds P (u.full_length == 0) _ _ (λ e sent. absurd (ground (arith, sent)))
        (λ e.
          if-holds P (not got) _ _ (λ e sent. absurd (ground (arith, sent)))
            (λ _.
              if-holds P (ltb v1.frame_buffer_size (length d)) _ _
                (λ e sent. absurd (ground (arith, sent)))
                (λ e.
                  after_send-Delivered v1 v w1 w since d (send_video net rounds v1.tcp_sender d w1)
                    (ap (λ s. s.config) same)
                    (λ done.
                      (send_video-received laws rounds v1.tcp_sender fd d w1
                        (ap (λ s. s.sock_fd) same ∙ held)
                        (omega (arith, s1, ap (λ s. s.config.stream_id) same))
                        (omega (arith, s2, ap (λ s. s.config.stream_id) same)) done).0
                      ∙ ap₂ (λ before id. before ++ video_packet id d) quiet
                          (ap (λ s. s.config.stream_id) same))
                    frames bytes (ground arith))))

  -- `at` is where `ensure_connected` has got.
  when_connected-Delivered :
      (since : ℕ) (u : DecodeUnit) (at : Progress × (Worker × W))
      → at.1.0.tcp_sender.sock_fd ≡ some fd
      → 1 ≤ at.1.0.tcp_sender.config.stream_id
      → at.1.0.tcp_sender.config.stream_id ≤ max_streams
      → (when_connected net rounds since u at).0 ≡ SubmitOutcome.frame_sent
      → Delivered wire fd at.1.0 at.1.1
          (flatten u.buffer_list)
          (when_connected net rounds since u at).1
  unfolding when_connected
  when_connected-Delivered since u (Progress.succeeded, (v, w)) held s1 s2 sent =
      send_unit-Delivered v since u w held s1 s2 sent
  when_connected-Delivered since u (Progress.failed, (v, w)) held s1 s2 sent =
      absurd (ground (arith, sent))
  when_connected-Delivered since u (Progress.running, (v, w)) held s1 s2 sent =
      absurd (ground (arith, sent))

  -- Given that `send` appends what it takes and the clock sends nothing: if a frame counts as sent, on the
  -- socket `fd` that the sender has once `ensure_connected` is through, for a stream 1 to 256, then the
  -- peer got one more packet than at that point, a video packet whose payload is the pieces of the frame put
  -- together, which all fit the frame buffer, and the counters of frames and bytes have gone up by one and by its length.
  pub submit-Delivered :
      (v : Worker) (u : DecodeUnit) (w : W)
      → let received = record v { stats_frames_received = add64 v.stats_frames_received 1 } in
        let (connected, (v1, w1)) =
          ensure_connected net rounds received (net.now_monotonic_ns w).1 in
        v1.tcp_sender.sock_fd ≡ some fd
        → 1 ≤ v1.tcp_sender.config.stream_id
        → v1.tcp_sender.config.stream_id ≤ max_streams
        → (submit net rounds v u w).0 ≡ SubmitOutcome.frame_sent
        → Delivered wire fd v1 w1 (flatten u.buffer_list) (submit net rounds v u w).1
  unfolding submit
  submit-Delivered v u w held s1 s2 sent =
      let received = record v { stats_frames_received = add64 v.stats_frames_received 1 } in
      when_connected-Delivered (net.now_monotonic_ns w).0 u
        (ensure_connected net rounds received (net.now_monotonic_ns w).1) held s1 s2 sent
