-- ===== src/Watchdog.antt =====
-- stream_server/src/server.c: the watchdogs that ask the sender of a stream for a keyframe. Each reads
-- the clock, decides under `stream->lock`, and goes through `request_idr_for_stream`, which reads the
-- clock again. The result `true` stands for the call of `request_idr_best_effort_main_path`.
pub mod Spaced
mod Tests
use myworkspace.Prelude.{
  ℕ, ◌*◌, Bool, true, false, not, ◌&&◌, ◌||◌, ◌==◌, ltb, leb, if◌then◌else◌, sub64, add32,
}

-- The fields of `StreamContext` that the watchdogs use; `active` is `state == STREAM_STATE_ACTIVE`.
pub record StreamWatch : Type 0 where
  pub active : Bool
  pub decoder_initialized : Bool
  pub frames_received : ℕ
  pub frames_decoded : ℕ
  pub last_idr_request_ns : ℕ
  pub watchdog_last_received : ℕ
  pub watchdog_last_decoded : ℕ
  pub watchdog_last_decoded_change_ns : ℕ
  pub decode_stall_count : ℕ
  pub decode_stall_last_idr_ns : ℕ

abbrev pub second_ns : ℕ
second_ns = 1000 * 1000 * 1000

unfoldable pub request_idr_for_stream : StreamWatch → ℕ → Bool × StreamWatch
request_idr_for_stream s now =
    if s.last_idr_request_ns == 0 || leb second_ns (sub64 now s.last_idr_request_ns)
    then (true, record s { last_idr_request_ns = now })
    else (false, s)

-- `handle_packet` at a STREAM_START: the watchdogs begin anew, and the last request is forgotten.
unfoldable pub restart_watch : StreamWatch → ℕ → StreamWatch
restart_watch s now = record s {
  last_idr_request_ns = 0;
  watchdog_last_received = 0;
  watchdog_last_decoded = 0;
  watchdog_last_decoded_change_ns = now;
  decode_stall_last_idr_ns = 0;
  decode_stall_count = 0;
}

unfoldable pub request_idr_for_no_decode : StreamWatch → ℕ → ℕ → Bool × StreamWatch
request_idr_for_no_decode s now later =
    if s.active
      && (s.decoder_initialized
          && (s.frames_decoded == 0
              && (leb 30 s.frames_received
                  && (s.last_idr_request_ns == 0
                      || leb second_ns (sub64 now s.last_idr_request_ns)))))
    then request_idr_for_stream s later
    else (false, s)

-- The watchdog's view of the counters brought up to date.
unfoldable pub note_counters : StreamWatch → ℕ → StreamWatch
note_counters s now = record s {
  watchdog_last_received = s.frames_received;
  watchdog_last_decoded = s.frames_decoded;
  watchdog_last_decoded_change_ns = now;
}

unfoldable pub stall_backoff_ns : ℕ → ℕ
stall_backoff_ns count =
    if count == 1 then 5 * second_ns else if leb 2 count then 10 * second_ns else 2 * second_ns

unfoldable pub is_stalled : StreamWatch → ℕ → Bool
is_stalled s now =
    leb 30 (sub64 s.frames_received s.watchdog_last_received)
    && (leb (2 * second_ns) (sub64 now s.watchdog_last_decoded_change_ns)
        && (s.decode_stall_last_idr_ns == 0
            || leb (stall_backoff_ns s.decode_stall_count) (sub64 now s.decode_stall_last_idr_ns)))

unfoldable pub request_idr_for_decode_stall : StreamWatch → ℕ → ℕ → Bool × StreamWatch
request_idr_for_decode_stall s now later =
    if not s.active || (not s.decoder_initialized || s.frames_decoded == 0)
    then (false, note_counters s now)
    else if s.watchdog_last_decoded_change_ns == 0
    then (false, note_counters s now)
    else if not (s.frames_decoded == s.watchdog_last_decoded)
    then (false, record (note_counters s now) { decode_stall_count = 0 })
    else if is_stalled s now
    then request_idr_for_stream
        (record s {
          decode_stall_last_idr_ns = now;
          decode_stall_count = add32 s.decode_stall_count 1;
        })
        later
    else (false, s)
