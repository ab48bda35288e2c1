-- ===== src/Watchdog/Tests.antt =====
-- A stream that stalls, and the spacing of its requests.
use myworkspace.Prelude.{ℕ, List, [], ◌∷◌, true, arith, ◌≡◌, refl}
use myworkspace.Watchdog.{
  StreamWatch, restart_watch, request_idr_for_stream, request_idr_for_decode_stall, is_stalled,
  stall_backoff_ns,
}
use myworkspace.Watchdog.Spaced.{
  Tick, restart, explicit, decode_stall, session, request_at, told, ask, asked, IsSpaced,
  asked-IsSpaced,
}

-- Ten frames were decoded, the last one at 1 s; 90 have come since.
abbrev stalled : StreamWatch
stalled = record {
  active = true;
  decoder_initialized = true;
  frames_received = 100;
  frames_decoded = 10;
  last_idr_request_ns = 0;
  watchdog_last_received = 10;
  watchdog_last_decoded = 10;
  watchdog_last_decoded_change_ns = 1_000_000_000;
  decode_stall_count = 0;
  decode_stall_last_idr_ns = 0;
}

abbrev tick : ℕ → Tick
tick now = record {
  source = decode_stall;
  active = true;
  decoder_initialized = true;
  frames_received = 100;
  frames_decoded = 10;
  now = now;
  later = now;
}

abbrev ticks : List Tick
ticks =
    tick 4_000_000_000
    ∷ record (tick 4_500_000_000) { source = explicit }
    ∷ tick 5_000_000_000
    ∷ record (tick 5_000_000_100) { source = restart }
    ∷ record (tick 5_000_000_200) { source = explicit }
    ∷ tick 9_500_000_000
    ∷ []

asked_times :
    asked stalled ticks ≡ request_at 4_000_000_000 ∷ session ∷ request_at 5_000_000_200 ∷ []
unfolding asked ask told restart_watch request_idr_for_decode_stall request_idr_for_stream
    is_stalled stall_backoff_ns
asked_times = refl

asked-IsSpaced_example : IsSpaced 0 (asked stalled ticks)
asked-IsSpaced_example = asked-IsSpaced stalled 0 ticks (omega arith) (ground arith)
