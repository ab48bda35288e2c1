-- ===== src/Recorder/Process/Armed.antt =====
-- compressed_recorder.c: the writer thread never leaves an active stream without an open file that
-- is not waiting for a keyframe, so no packet of an active stream is dropped for want of a file.
use myworkspace.Prelude.{
  ℕ, List, [], ◌∷◌, Bool, true, false, ◌≡◌, refl, ◌⊎◌, inl, inr, arith, is_some, Bool-cases, not,
  ◌&&◌, if◌then◌else◌, ◌==◌,
}
use myworkspace.Recorder.{
  Recorder, RecorderStream, RecorderEvent, RecorderEventType, stream_start, video, stream_stop,
  update,
}
use myworkspace.Recorder.Os
use myworkspace.Recorder.Os.{Os, Ctx}
use myworkspace.Recorder.Params.{analyze_payload, params_ready, is_empty}
use myworkspace.Recorder.Params.Cache.{OnlyParams, analyze_payload-OnlyParams}
use myworkspace.Recorder.Storage.{storage_available, skip_unmounted, note_mount_skip}
use myworkspace.Recorder.Idr.{request_idr, maybe_request_periodic_idr}
use myworkspace.Recorder.Segment.{
  close_segment, open_segment, write_param_sets, write_segment_packet, reset_stream_file_state,
}
use myworkspace.Recorder.Process.Effects.{
  Keeps, request_idr-Keeps, storage_available-s, maybe_request_periodic_idr-Keeps,
  open_segment-opened, write_param_sets-s, write_segment_packet-Keeps,
}
use myworkspace.Recorder.Process.{
  write_head, begin_segment, video_waiting, note_rollover, roll_over, append_packet,
  video_recording, record_packet, video_on_stream, start_stream, stop_stream, process_stream_start,
  process_stream_stop, process_video, dispatch, process_event, process_events, has_stream,
  on_stream,
}

-- An active stream has an open file or waits for a keyframe.
pub record IsArmed (s : RecorderStream) : Type 0 where
  pub either : (s.active ≡ false) ⊎ ((is_some s.fp ≡ true) ⊎ (s.waiting_keyframe ≡ true))

if-IsArmed :
    {W : Type 0} (b : Bool) (x y : Ctx W)
    → (b ≡ true → IsArmed x.s)
    → (b ≡ false → IsArmed y.s)
    → IsArmed (if b then x else y).s
if-IsArmed true x y hx hy = hx refl
if-IsArmed false x y hx hy = hy refl

Keeps-IsArmed : {s t : RecorderStream} → Keeps s t → IsArmed s → IsArmed t
Keeps-IsArmed k h = ground arith

OnlyParams-IsArmed : {W : Type 0} {c d : Ctx W} → OnlyParams c d → IsArmed c.s → IsArmed d.s
OnlyParams-IsArmed k h = ground arith

module _ {W : Type 0} (os : Os W) where
  write_head-Keeps : (c : Ctx W) (d : List ℕ) → Keeps c.s (write_head os c d).1.s
  unfolding write_head
  write_head-Keeps c d = elim (Bool-cases (write_param_sets os c).0) [
    | inl sets ↦ rw sets (
        ground (
          arith,
          write_param_sets-s os c,
          write_segment_packet-Keeps os (write_param_sets os c).1 d,
        ))
    | inr bad ↦ rw bad (ground (arith, write_param_sets-s os c))
  ]

  begin_segment-IsArmed :
      (c : Ctx W) (d : List ℕ) → is_some c.s.fp ≡ true → IsArmed (begin_segment os c d).s
  unfolding begin_segment
  begin_segment-IsArmed c d h = ground (arith, write_head-Keeps c d)

  video_waiting-IsArmed :
      (c : Ctx W) (ev : RecorderEvent) (k : Bool)
      → c.s.waiting_keyframe ≡ true
      → IsArmed (video_waiting os c ev k).s
  unfolding video_waiting
  video_waiting-IsArmed c ev k h =
      let o = open_segment os c ev.wall_ms ev.mono_ns in
      ground (
        arith,
        request_idr-Keeps os c Os.record_wait_keyframe ev.mono_ns false,
        request_idr-Keeps os c Os.record_wait_params ev.mono_ns false,
        open_segment-opened os c ev.wall_ms ev.mono_ns,
        begin_segment-IsArmed o.1 ev.payload,
      )

  note_rollover-Keeps :
      (c : Ctx W) (ev : RecorderEvent) (k : Bool) → Keeps c.s (note_rollover os c ev k).s
  unfolding note_rollover
  note_rollover-Keeps c ev k = ground (
    arith,
    request_idr-Keeps os (record c { s = record c.s { rollover_pending = true } })
        Os.record_rollover ev.mono_ns true,
  )

  roll_over-IsArmed : (c : Ctx W) (ev : RecorderEvent) → IsArmed (roll_over os c ev).s
  unfolding roll_over
  roll_over-IsArmed c ev =
      let c1 = (close_segment os c true).1 in
      let o = open_segment os c1 ev.wall_ms ev.mono_ns in
      ground (
        arith,
        open_segment-opened os c1 ev.wall_ms ev.mono_ns,
        begin_segment-IsArmed o.1 ev.payload,
      )

  append_packet-IsArmed :
      (c : Ctx W) (ev : RecorderEvent) → IsArmed c.s → IsArmed (append_packet os c ev).s
  unfolding append_packet
  append_packet-IsArmed c ev h =
      let c1 = maybe_request_periodic_idr os c ev.mono_ns in
      let o = write_segment_packet os c1 ev.payload in
      let closed = close_segment os o.1 false in
      let waiting = record closed.1 { s = record closed.1.s { waiting_keyframe = true } } in
      ground (
        arith,
        maybe_request_periodic_idr-Keeps os c ev.mono_ns,
        write_segment_packet-Keeps os c1 ev.payload,
        request_idr-Keeps os waiting Os.record_write_error ev.mono_ns true,
      )

  video_recording-IsArmed :
      (c : Ctx W) (ev : RecorderEvent) (k : Bool)
      → IsArmed c.s
      → IsArmed (video_recording os c ev k).s
  unfolding video_recording
  video_recording-IsArmed c ev k h =
      let c1 = note_rollover os c ev k in
      let h1 = Keeps-IsArmed (note_rollover-Keeps c ev k) h in
      let asked = λ (reason : Os.Reason). request_idr os c1 reason ev.mono_ns false in
      let reason =
        if params_ready c1.s
        then Os.record_wait_rollover_keyframe
        else Os.record_wait_rollover_params in
      if-IsArmed (not c1.s.rollover_pending) _ _ (λ e. append_packet-IsArmed c1 ev h1)
        (λ e.
          if-IsArmed (k && params_ready c1.s) _ _ (λ e'. roll_over-IsArmed c1 ev)
            (λ e'.
              append_packet-IsArmed (asked reason) ev
                (Keeps-IsArmed (request_idr-Keeps os c1 reason ev.mono_ns false) h1)))

  skip_unmounted-IsArmed : (c : Ctx W) (now : ℕ) → IsArmed (skip_unmounted c now).s
  unfolding skip_unmounted note_mount_skip
  skip_unmounted-IsArmed c now = ground arith

  record_packet-IsArmed :
      (c : Ctx W) (ev : RecorderEvent) → IsArmed c.s → IsArmed (record_packet os c ev).s
  unfolding record_packet
  record_packet-IsArmed c ev h =
      let (c1, k) = analyze_payload os c ev.payload in
      let (ok, c2) = storage_available os c1 ev.mono_ns in
      let h2 : IsArmed c2.s =
        rw (storage_available-s os c1 ev.mono_ns)
          (OnlyParams-IsArmed (analyze_payload-OnlyParams os c ev.payload) h) in
      if-IsArmed (not ok) _ _ (λ e. skip_unmounted-IsArmed c2 ev.mono_ns)
        (λ e.
          if-IsArmed c2.s.waiting_keyframe _ _ (video_waiting-IsArmed c2 ev k)
            (λ e'. video_recording-IsArmed c2 ev k h2))

  video_on_stream-IsArmed :
      (c : Ctx W) (ev : RecorderEvent) → IsArmed c.s → IsArmed (video_on_stream os c ev).s
  unfolding video_on_stream
  video_on_stream-IsArmed c ev h = ground (arith, record_packet-IsArmed c ev)

  start_stream-IsArmed : (c : Ctx W) (ev : RecorderEvent) → IsArmed (start_stream os c ev).s
  unfolding start_stream reset_stream_file_state request_idr
  start_stream-IsArmed c ev = ground arith

  stop_stream-IsArmed : (c : Ctx W) (ev : RecorderEvent) → IsArmed (stop_stream os c ev).s
  unfolding stop_stream
  stop_stream-IsArmed c ev = ground arith

abbrev pub AllArmed : {W : Type 0} → W × Recorder → Type 0
AllArmed st = (j : ℕ) → IsArmed (st.1.streams j)

update-IsArmed :
    (f : ℕ → RecorderStream) (i j : ℕ) (s : RecorderStream)
    → IsArmed (f j)
    → IsArmed s
    → IsArmed (update f i s j)
update-IsArmed f i j s hf hs = elim (Bool-cases (i == j)) [
  | inl same ↦ rw same hs
  | inr other ↦ rw other hf
]

module _ {W : Type 0} (os : Os W) where
  on_stream-AllArmed :
      (st : W × Recorder) (id : ℕ) (f : Ctx W → Ctx W) (b : Bool)
      → ((c : Ctx W) → IsArmed c.s → IsArmed (f c).s)
      → AllArmed st
      → AllArmed (if b then on_stream os st id f else st)
  on_stream-AllArmed st id f false keep h j = h j
  on_stream-AllArmed (w, r) id f true keep h j =
      let c : Ctx W = record { w = w; r = r; s = r.streams id } in
      update-IsArmed r.streams id j (f c).s (h j) (keep c (h id))

  dispatch-AllArmed :
      (st : W × Recorder) (ev : RecorderEvent) (type : RecorderEventType)
      → AllArmed st
      → AllArmed (dispatch os st ev type)
  unfolding dispatch process_stream_start process_video process_stream_stop
  dispatch-AllArmed st ev stream_start h =
      on_stream-AllArmed st ev.stream_id (λ c. start_stream os c ev) (has_stream st.1 ev.stream_id)
        (λ c a. start_stream-IsArmed os c ev) h
  dispatch-AllArmed st ev video h =
      on_stream-AllArmed st ev.stream_id (λ c. video_on_stream os c ev)
        (has_stream st.1 ev.stream_id && not (is_empty ev.payload))
        (λ c. video_on_stream-IsArmed os c ev) h
  dispatch-AllArmed st ev stream_stop h =
      on_stream-AllArmed st ev.stream_id (λ c. stop_stream os c ev) (has_stream st.1 ev.stream_id)
        (λ c a. stop_stream-IsArmed os c ev) h

  -- Whatever the C library answers, if every stream of the recorder either is inactive, has an open
  -- file or waits for a keyframe, the same holds after any sequence of events: no active stream is
  -- ever left without a file and without waiting for the keyframe that opens one.
  pub process_events-AllArmed :
      (evs : List RecorderEvent) (st : W × Recorder)
      → AllArmed st
      → AllArmed (process_events os st evs)
  unfolding process_events process_event
  process_events-AllArmed [] st h = h
  process_events-AllArmed (ev ∷ evs) st h =
      process_events-AllArmed evs (process_event os st ev) (dispatch-AllArmed st ev ev.type h)
