-- ===== src/Worker/Submit.antt =====
-- video_callbacks.c: `worker_submit_decode_unit`, which sends a frame, and what it calls.
pub mod Sent
use myworkspace.Prelude.{
  ℕ, ◌+◌, ◌*◌, List, [], ◌∷◌, length, Option, none, some, Bool, true, false, not, ◌==◌, leb, ltb,
  if◌then◌else◌, add64, sub64,
}
use mathlib.Core.List.{flatten}
use myworkspace.Sender.{TcpSender, TcpSenderState, Progress}
use myworkspace.Sender.Net.{Net}
use myworkspace.Sender.Buffer.{grow}
use myworkspace.Sender.Packets.{is_connected, send_video, check_heartbeat}
use myworkspace.Sender.Connect.{connect, disconnect}
use myworkspace.Worker.{Worker, DecodeUnit, heartbeat_interval_ns, reconnect_interval_ns}
use myworkspace.Worker.Format.{set_fatal_once, fatal_tcp_send}

-- How a submission ends; `hanging` is that a loop of the sender has not ended within its rounds. The
-- callback returns DR_OK in every other case. `overran` is that the pieces were copied past the end of
-- `g_frame_buffer`, behind which nothing can be said of the program.
pub data SubmitOutcome : Type 0 where
  not_connected empty_frame no_memory send_failed frame_sent overran hanging : SubmitOutcome

abbrev pub is_error : TcpSender → Bool
is_error s = elim s.state [ TcpSenderState.error ↦ true | _ ↦ false ]

unfoldable pub reset_stats : Worker → ℕ → Worker
reset_stats v now = record v {
  stats_last_ns = now;
  stats_frames_received = 0;
  stats_frames_sent = 0;
  stats_bytes_sent = 0;
  stats_total_delay_ns = 0;
  stats_max_delay_ns = 0;
  stats_delay_samples = 0;
}

-- The counters of a frame sent.
unfoldable pub count_sent : Worker → ℕ → ℕ → Worker
count_sent v delay n = record v {
  stats_total_delay_ns = add64 v.stats_total_delay_ns delay;
  stats_delay_samples = add64 v.stats_delay_samples 1;
  stats_max_delay_ns = (if ltb v.stats_max_delay_ns delay then delay else v.stats_max_delay_ns);
  stats_frames_sent = add64 v.stats_frames_sent 1;
  stats_bytes_sent = add64 v.stats_bytes_sent n;
}

module _ {W : Type 0} (net : Net W) (rounds : ℕ) where
  after_frame_grow : Worker → ℕ → Bool × W → Bool × (Worker × W)
  after_frame_grow v size (true, w) = (true, (record v { frame_buffer_size = size }, w))
  after_frame_grow v size (false, w) = (false, (v, w))

  -- 64 doublings reach any size of an `int`.
  unfoldable pub ensure_frame_buffer : Worker → ℕ → W → Bool × (Worker × W)
  unfolding after_frame_grow
  ensure_frame_buffer v needed w =
      if leb needed v.frame_buffer_size
      then (true, (v, w))
      else (let size =
            grow 64 needed
              (if v.frame_buffer_size == 0 then 1024 * 1024 else v.frame_buffer_size) in
          after_frame_grow v size (net.realloc size w))

  unfoldable pub maybe_report_stats : Worker → W → Worker × W
  maybe_report_stats v w =
      let (now, w1) = net.now_monotonic_ns w in
      if v.stats_last_ns == 0
      then (record v { stats_last_ns = now }, w1)
      else if leb (1000 * 1000 * 1000) (sub64 now v.stats_last_ns)
      then (reset_stats v now, w1)
      else (v, w1)

  after_connect : Worker → Bool × (TcpSender × W) → Progress × (Worker × W)
  after_connect v (true, (s, w)) = (Progress.succeeded, (record v { tcp_sender = s }, w))
  after_connect v (false, (s, w)) =
      let (now, w1) = net.now_monotonic_ns w in
      (Progress.failed, (record v { tcp_sender = s; last_reconnect_ns = now }, w1))

  -- The result of the heartbeat is not looked at.
  after_beat : Worker → Progress × (TcpSender × W) → Progress × (Worker × W)
  after_beat v (Progress.succeeded, (s, w)) = (Progress.succeeded, (record v { tcp_sender = s }, w))
  after_beat v (Progress.failed, (s, w)) = (Progress.succeeded, (record v { tcp_sender = s }, w))
  after_beat v (Progress.running, (s, w)) = (Progress.running, (record v { tcp_sender = s }, w))

  reconnect : Worker → W → Progress × (Worker × W)
  unfolding after_connect
  reconnect v w =
      let (now, w1) = net.now_monotonic_ns w in
      let (s, w2) = disconnect net rounds v.tcp_sender w1 in
      if ltb (sub64 now v.last_reconnect_ns) reconnect_interval_ns
      then (Progress.failed, (v, w1))
      else after_connect v (connect net rounds s w2)

  unfoldable pub ensure_connected : Worker → W → Progress × (Worker × W)
  unfolding after_beat reconnect after_connect
  ensure_connected v w =
      if not v.tcp_initialized
      then (Progress.failed, (v, w))
      else if is_connected v.tcp_sender
      then after_beat v (check_heartbeat net rounds v.tcp_sender heartbeat_interval_ns w)
      else if is_error v.tcp_sender
      then reconnect v w
      else after_connect v (connect net rounds v.tcp_sender w)

  after_send : Worker → ℕ → ℕ → Progress × (TcpSender × W) → SubmitOutcome × (Worker × W)
  after_send v since n (Progress.succeeded, (s, w)) =
      let (now, w1) = net.now_monotonic_ns w in
      (SubmitOutcome.frame_sent, (count_sent (record v { tcp_sender = s }) (sub64 now since) n, w1))
  after_send v since n (Progress.failed, (s, w)) =
      (SubmitOutcome.send_failed, (set_fatal_once (record v { tcp_sender = s }) fatal_tcp_send, w))
  after_send v since n (Progress.running, (s, w)) =
      (SubmitOutcome.hanging, (record v { tcp_sender = s }, w))

  -- The pieces put together and sent. The copy does not look at the size of the buffer, which has room for
  -- `fullLength` at least: pieces of more than the buffer has are written past its end.
  -- `is_idr_frame` looks at them too, its result has no effect.
  unfoldable pub send_unit : Worker → ℕ → DecodeUnit → W → SubmitOutcome × (Worker × W)
  unfolding after_send
  send_unit v since u w =
      let d = flatten u.buffer_list in
      let (got, (v1, w1)) = ensure_frame_buffer v u.full_length w in
      if u.full_length == 0
      then (SubmitOutcome.empty_frame, (v, w))
      else if not got
      then (SubmitOutcome.no_memory, (v1, w1))
      else if ltb v1.frame_buffer_size (length d)
      then (SubmitOutcome.overran, (v1, w1))
      else after_send v1 since (length d) (send_video net rounds v1.tcp_sender d w1)

  when_connected : ℕ → DecodeUnit → Progress × (Worker × W) → SubmitOutcome × (Worker × W)
  when_connected since u (Progress.succeeded, (v, w)) = send_unit v since u w
  when_connected since u (Progress.failed, (v, w)) = (SubmitOutcome.not_connected, (v, w))
  when_connected since u (Progress.running, (v, w)) = (SubmitOutcome.hanging, (v, w))

  -- Up to the report.
  unfoldable pub submit : Worker → DecodeUnit → W → SubmitOutcome × (Worker × W)
  unfolding when_connected
  submit v u w =
      let v1 = record v { stats_frames_received = add64 v.stats_frames_received 1 } in
      let (since, w1) = net.now_monotonic_ns w in when_connected since u (ensure_connected v1 w1)

  abbrev reported : SubmitOutcome × (Worker × W) → SubmitOutcome × (Worker × W)
  reported (SubmitOutcome.hanging, (v, w)) = (SubmitOutcome.hanging, (v, w))
  reported (SubmitOutcome.overran, (v, w)) = (SubmitOutcome.overran, (v, w))
  reported (outcome, (v, w)) = (outcome, maybe_report_stats v w)

  unfoldable pub worker_submit_decode_unit : Worker → DecodeUnit → W → SubmitOutcome × (Worker × W)
  worker_submit_decode_unit v u w = reported (submit v u w)
