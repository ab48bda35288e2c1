-- ===== src/Stream/Table.antt =====
-- stream.c: the table of the streams.
use myworkspace.Prelude.{ℕ, Option, none, some, Bool, ◌&&◌, ◌||◌, ltb, leb, if◌then◌else◌}
use myworkspace.Protocol.{max_streams}
use myworkspace.Recorder.{update}
use myworkspace.Stream.{StreamManager, StreamContext, new_stream, zero_stress_test}

-- The slots from `count` on are not looked at.
unfoldable pub stream_manager_init : ℕ → Option StreamManager
stream_manager_init count =
    if ltb count 1 || ltb max_streams count
    then none
    else some (record { streams = new_stream; max_streams = count; stress_test = zero_stress_test })

-- Whether `stream_manager_get` returns a stream.
abbrev pub has_stream : StreamManager → ℕ → Bool
has_stream mgr id = leb 1 id && leb id mgr.max_streams

-- The stream of a slot, and its change.
abbrev pub put_stream : StreamManager → ℕ → StreamContext → StreamManager
put_stream mgr id s = record mgr { streams = update mgr.streams id s }

unfoldable pub stream_manager_get : StreamManager → ℕ → Option StreamContext
stream_manager_get mgr id = if has_stream mgr id then some (mgr.streams id) else none
