-- ===== src/Recorder/Process/Gate.antt =====
-- compressed_recorder.c: a file is opened only for a keyframe, once the parameter sets are known.
use myworkspace.Prelude.{ℕ, Bool, true, false, none, ◌≡◌, arith, is_some}
use myworkspace.Recorder.{RecorderEvent}
use myworkspace.Recorder.Os
use myworkspace.Recorder.Os.{Os, Ctx}
use myworkspace.Recorder.Params.{params_ready, analyze_payload}
use myworkspace.Recorder.Params.Cache.{analyze_payload-OnlyParams}
use myworkspace.Recorder.Storage.{storage_available, skip_unmounted, note_mount_skip}
use myworkspace.Recorder.Process.Effects.{request_idr-Keeps, storage_available-s}
use myworkspace.Recorder.Process.{video_waiting, record_packet, video_on_stream}

module _ {W : Type 0} (os : Os W) where
  video_waiting_gate :
      (c : Ctx W) (ev : RecorderEvent) (k : Bool)
      → c.s.fp ≡ none
      → is_some (video_waiting os c ev k).s.fp ≡ true
      → (k ≡ true) × (params_ready c.s ≡ true)
  unfolding video_waiting
  video_waiting_gate c ev k shut opened = ground (
    arith,
    request_idr-Keeps os c Os.record_wait_keyframe ev.mono_ns false,
    request_idr-Keeps os c Os.record_wait_params ev.mono_ns false,
  )

  skip_unmounted-fp : (c : Ctx W) (now : ℕ) → (skip_unmounted c now).s.fp ≡ c.s.fp
  unfolding skip_unmounted note_mount_skip
  skip_unmounted-fp c now = ground arith

  -- If a stream that waits for a keyframe and has no file has one after a packet, then the storage
  -- was available, the packet has a keyframe, and every parameter set of the codec is cached.
  pub video_on_stream_opens_at_keyframe :
      (c : Ctx W) (ev : RecorderEvent)
      → c.s.fp ≡ none
      → c.s.waiting_keyframe ≡ true
      → is_some (video_on_stream os c ev).s.fp ≡ true
      → let (c1, k) = analyze_payload os c ev.payload in
        (k ≡ true) × (params_ready c1.s ≡ true) × ((storage_available os c1 ev.mono_ns).0 ≡ true)
  unfolding video_on_stream record_packet
  video_on_stream_opens_at_keyframe c ev shut waits opened =
      let (c1, k) = analyze_payload os c ev.payload in
      let (ok, c2) = storage_available os c1 ev.mono_ns in
      ground (
        arith,
        analyze_payload-OnlyParams os c ev.payload,
        storage_available-s os c1 ev.mono_ns,
        skip_unmounted-fp c2 ev.mono_ns,
        video_waiting_gate c2 ev k,
      )
