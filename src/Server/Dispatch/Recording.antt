-- ===== src/Server/Dispatch/Recording.antt =====
-- server.c: what the recorder is told keeps its queue's counters right.
use myworkspace.Prelude.{
  ℕ, ◌<◌, ◌^◌, List, length, some, Bool, true, false, not, ◌&&◌, ◌||◌, if-holds, arith,
}
use myworkspace.Protocol.{StreamInfo}
use myworkspace.Recorder.{Recorder}
use myworkspace.Recorder.Params.{is_empty}
use myworkspace.Recorder.Queue.{is_enabled, on_stream_start, on_video, on_stream_stop}
use myworkspace.Recorder.Queue.Bounded.{QueueInv, enqueue_event-QueueInv}
use myworkspace.Stream.Route.{is_unset}
use myworkspace.Server.Dispatch.{
  ServerEnv, with_clocks, video_copy, record_start, record_stop, record_video,
}

on_stream_start-QueueInv :
    (r : Recorder) (got : Bool) (id : ℕ) (info : StreamInfo) (wall mono : ℕ)
    → QueueInv r
    → QueueInv (on_stream_start r got id (some info) wall mono)
unfolding on_stream_start
on_stream_start-QueueInv r got id info wall mono v =
    if-holds QueueInv (not (is_enabled r) || not got) _ _ (λ e. v)
      (λ e. enqueue_event-QueueInv r _ (omega arith) v)

on_stream_stop-QueueInv :
    (r : Recorder) (got : Bool) (id wall mono : ℕ)
    → QueueInv r
    → QueueInv (on_stream_stop r got id wall mono)
unfolding on_stream_stop
on_stream_stop-QueueInv r got id wall mono v =
    if-holds QueueInv (not (is_enabled r) || not got) _ _ (λ e. v)
      (λ e. enqueue_event-QueueInv r _ (omega arith) v)

on_video-QueueInv :
    (r : Recorder) (got copied : Bool) (id : ℕ) (d : List ℕ) (wall mono : ℕ)
    → length d < 2 ^ 63
    → QueueInv r
    → QueueInv (on_video r got copied id (some d) wall mono)
unfolding on_video
on_video-QueueInv r got copied id d wall mono small v =
    if-holds QueueInv (is_empty d || (not (is_enabled r) || not (got && copied))) _ _ (λ e. v)
      (λ e. enqueue_event-QueueInv r _ small v)

module _ {W : Type 0} (env : ServerEnv W) where
  with_clocks-QueueInv :
      (make : Bool → ℕ → ℕ → Recorder) (r : Bool × W)
      → ((got : Bool) (wall mono : ℕ) → QueueInv (make got wall mono))
      → QueueInv (with_clocks env make r).0
  unfolding with_clocks
  with_clocks-QueueInv make (false, w) v = v false 0 0
  with_clocks-QueueInv make (true, w) v =
      v true (env.wall_ms w).0 (env.monotonic_ns (env.wall_ms w).1).0

  pub record_start-QueueInv :
      (r : Recorder) (id : ℕ) (info : StreamInfo) (w : W)
      → QueueInv r
      → QueueInv (record_start env r id info w).0
  unfolding record_start
  record_start-QueueInv r id info w v =
      if-holds (λ (x : Recorder × W). QueueInv x.0) (is_enabled r) _ _
        (λ e.
          with_clocks-QueueInv _ (env.calloc w)
            (λ got wall mono. on_stream_start-QueueInv r got id info wall mono v))
        (λ e. v)

  pub record_stop-QueueInv :
      (r : Recorder) (id : ℕ) (w : W) → QueueInv r → QueueInv (record_stop env r id w).0
  unfolding record_stop
  record_stop-QueueInv r id w v =
      if-holds (λ (x : Recorder × W). QueueInv x.0) (is_enabled r) _ _
        (λ e.
          with_clocks-QueueInv _ (env.calloc w)
            (λ got wall mono. on_stream_stop-QueueInv r got id wall mono v))
        (λ e. v)

  video_copy-QueueInv :
      (r : Recorder) (id : ℕ) (d : List ℕ) (x : Bool × W)
      → length d < 2 ^ 63
      → QueueInv r
      → QueueInv (video_copy env r id d x).0
  unfolding video_copy
  video_copy-QueueInv r id d (false, w) small v = v
  video_copy-QueueInv r id d (true, w) small v =
      let (wall, w1) = env.wall_ms w in
      let (mono, w2) = env.monotonic_ns w1 in
      on_video-QueueInv r true (env.malloc (length d) w2).0 id d wall mono small v

  pub record_video-QueueInv :
      (r : Recorder) (id : ℕ) (d : List ℕ) (w : W)
      → length d < 2 ^ 63
      → QueueInv r
      → QueueInv (record_video env r id d w).0
  unfolding record_video
  record_video-QueueInv r id d w small v =
      if-holds (λ (x : Recorder × W). QueueInv x.0) (is_enabled r && not (is_unset d)) _ _
        (λ e. video_copy-QueueInv r id d (env.calloc w) small v) (λ e. v)
