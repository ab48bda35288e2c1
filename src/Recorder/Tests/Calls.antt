-- ===== src/Recorder/Tests/Calls.antt =====
-- compressed_recorder.c: the queue, the start, the requests and the paths at concrete states.
use myworkspace.Prelude.{ℕ, ◌≡◌, ◌⊎◌, ◌↔◌, refl, List, [], ◌∷◌, ◌++◌, true, arith, ◌-◌}
use myworkspace.Recorder.{Recorder}
use myworkspace.Recorder.Nal.{find_start_code}
use myworkspace.Recorder.Nal.Scan.{Found, find_start_code-Found}
use myworkspace.Recorder.Storage.{path_is_under_mountpoint}
use myworkspace.Recorder.Storage.Mounted.{path_is_under_mountpoint_iff}
use myworkspace.Recorder.Queue.{take_event, finished, request_stop}
use myworkspace.Recorder.Queue.Fifo.{run, offer, take, stop, takes, run-fifo, request_stop-drains}
use myworkspace.Recorder.Config.{Scan, range, one, neither, parse_streams_spec, tokens}
use myworkspace.Recorder.Config.Streams.{any_selects, parse_streams_spec-eq}
use myworkspace.Recorder.Tests.{sps, pps, keyframe, running, packet}

run-fifo_example :
    let out = run running (offer (packet sps) ∷ take ∷ offer (packet pps) ∷ stop ∷ []) in
    [] ++ out.queued ≡ out.got ++ out.recorder.queue
run-fifo_example = run-fifo (offer (packet sps) ∷ take ∷ offer (packet pps) ∷ stop ∷ []) running

abbrev filled : Recorder
filled = record running {
  queue = packet sps ∷ packet pps ∷ [];
  queued_bytes = 12;
  queued_events = 2;
}

request_stop-drains_example :
    let out = run (request_stop filled) (takes 2) in
    (out.got ≡ packet sps ∷ packet pps ∷ []) × (take_event out.recorder ≡ finished)
request_stop-drains_example = request_stop-drains filled refl

find_start_code-Found_example : Found keyframe 4 (find_start_code keyframe 4)
find_start_code-Found_example = find_start_code-Found keyframe 4

-- Reads one digit, or two with a dash between them.
abbrev digits_only : List ℕ → Scan
digits_only (a ∷ []) = one (a - 48)
digits_only (a ∷ dash ∷ b ∷ []) = range (a - 48) (b - 48)
digits_only _ = neither

-- "3-2,9"
abbrev spec : List ℕ
spec = b'3' ∷ b'-' ∷ b'2' ∷ b',' ∷ b'9' ∷ []

parse_streams_spec-eq_example :
    parse_streams_spec digits_only 4 spec 2 ≡ any_selects digits_only 4 (tokens [] spec) 2
parse_streams_spec-eq_example = parse_streams_spec-eq digits_only 4 spec 2

abbrev mnt : List ℕ
mnt = b'/' ∷ b'm' ∷ []

path_is_under_mountpoint_iff_example :
    (path_is_under_mountpoint (b'/' ∷ b'm' ∷ b'2' ∷ []) mnt ≡ true) ↔ (
      ((b'/' ∷ b'm' ∷ b'2' ∷ []) ≡ mnt)
      ⊎ ((rest : List ℕ) × ((b'/' ∷ b'm' ∷ b'2' ∷ []) ≡ mnt ++ (b'/' ∷ rest))))
path_is_under_mountpoint_iff_example =
    path_is_under_mountpoint_iff mnt (omega arith) (omega arith) (b'/' ∷ b'm' ∷ b'2' ∷ [])
