-- ===== src/Recorder/Queue/Bounded.antt =====
-- compressed_recorder.c: the counters of the queue tell its content, and the bytes of the packets that
-- wait never exceed the limit.
use myworkspace.Prelude.{
  ℕ, ◌+◌, ◌%◌, ◌^◌, ◌≤◌, ◌<◌, ◌≡◌, List, [], ◌∷◌, ◌++◌, arith, length, if◌then◌else◌, length-append,
}
use myworkspace.Recorder.{Recorder, RecorderEvent}
use myworkspace.Recorder.Queue.{
  is_video, event_len, drop_event, append_event, over_limit, enqueue_event, taken, take_event,
  without_head,
}

-- The bytes of the packets in a queue.
abbrev pub packet_bytes : List RecorderEvent → ℕ
packet_bytes [] = 0
packet_bytes (ev ∷ evs) = (if is_video ev.type then event_len ev else 0) + packet_bytes evs

pub packet_bytes-append :
    (xs ys : List RecorderEvent) → packet_bytes (xs ++ ys) ≡ packet_bytes xs + packet_bytes ys
packet_bytes-append [] ys = omega arith
packet_bytes-append (x ∷ xs) ys = omega (arith, packet_bytes-append xs ys)

pub record QueueInv (r : Recorder) : Type 0 where
  pub bytes : r.queued_bytes ≡ packet_bytes r.queue
  pub within : r.queued_bytes ≤ r.queue_limit_bytes
  pub limit : r.queue_limit_bytes ≤ 2 ^ 63
  pub events : r.queued_events ≡ length r.queue % 2 ^ 64

-- Queueing keeps the counters right and the packets within the limit, for a packet below 2 ^ 63 bytes.
pub enqueue_event-QueueInv :
    (r : Recorder) (ev : RecorderEvent)
    → event_len ev < 2 ^ 63
    → QueueInv r
    → QueueInv (enqueue_event r ev)
unfolding enqueue_event append_event drop_event over_limit
enqueue_event-QueueInv r ev small v =
    ground (arith, packet_bytes-append r.queue (ev ∷ []), length-append r.queue (ev ∷ []))

-- The writer thread's step keeps them too.
pub take_event-QueueInv :
    (r s : Recorder) (ev : RecorderEvent) → take_event r ≡ taken ev s → QueueInv r → QueueInv s
unfolding take_event without_head
take_event-QueueInv r s ev e v = ground arith
