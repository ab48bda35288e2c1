-- ===== src/Recorder/Queue/Fifo.antt =====
-- compressed_recorder.c: any interleaving of the network threads' calls with the writer thread's.
use myworkspace.Prelude.{
  ℕ, zero, suc, ◌^◌, ◌<◌, ◌≡◌, List, [], ◌∷◌, ◌++◌, Bool, true, false, not, ◌&&◌, arith, length,
  if◌then◌else◌, refl, append_assoc, append-nil, All, sym, ◌∙◌, ap,
}
use myworkspace.Recorder.{Recorder, RecorderEvent}
use myworkspace.Recorder.Queue.{
  event_len, is_enabled, drop_event, append_event, over_limit, enqueue_event, Taken, waiting,
  finished, taken, take_event, without_head, request_stop,
}
use myworkspace.Recorder.Queue.Bounded.{QueueInv, enqueue_event-QueueInv, take_event-QueueInv}

-- A critical section of some thread: an event is offered, the writer takes one, or recording stops.
pub data Call : Type 0 where
  offer : RecorderEvent → Call
  take : Call
  stop : Call

-- The recorder after a call, the events that the writer got, and those that went into the queue.
pub record Outcome : Type 0 where
  pub recorder : Recorder
  pub got : List RecorderEvent
  pub queued : List RecorderEvent

after_take : Recorder → Taken → Outcome
after_take r waiting = record { recorder = r; got = []; queued = [] }
after_take r finished = record { recorder = r; got = []; queued = [] }
after_take r (taken ev s) = record { recorder = s; got = ev ∷ []; queued = [] }

-- An event is queued if the recorder accepts events and a packet fits.
abbrev pub queues : Recorder → RecorderEvent → Bool
queues r ev = is_enabled r && not (over_limit r ev)

unfoldable pub step : Recorder → Call → Outcome
unfolding after_take
step r (offer ev) = record {
  recorder = enqueue_event r ev;
  got = [];
  queued = (if queues r ev then ev ∷ [] else []);
}
step r take = after_take r (take_event r)
step r stop = record { recorder = request_stop r; got = []; queued = [] }

unfoldable pub run : Recorder → List Call → Outcome
run r [] = record { recorder = r; got = []; queued = [] }
run r (call ∷ calls) =
    let now = step r call in
    let later = run now.recorder calls in
    record {
      recorder = later.recorder;
      got = now.got ++ later.got;
      queued = now.queued ++ later.queued;
    }

step-fifo :
    (r : Recorder) (call : Call)
    → r.queue ++ (step r call).queued ≡ (step r call).got ++ (step r call).recorder.queue
unfolding step enqueue_event append_event drop_event take_event without_head request_stop
step-fifo r (offer ev) = ground (arith, append-nil r.queue)
step-fifo r take = ground (arith, append-nil r.queue)
step-fifo r stop = ground (arith, append-nil r.queue)

-- The queue is first in, first out and loses nothing: over any interleaving of offers, takings and a
-- stop, the events in the queue at first followed by those queued meanwhile are, in this order, the
-- events that the writer thread got followed by those still in the queue.
pub run-fifo :
    (calls : List Call) (r : Recorder)
    → r.queue ++ (run r calls).queued ≡ (run r calls).got ++ (run r calls).recorder.queue
unfolding run
run-fifo [] r = append-nil r.queue
run-fifo (call ∷ calls) r =
    let now = step r call in
    let later = run now.recorder calls in
    sym (append_assoc r.queue now.queued later.queued)
    ∙ ap (λ q. q ++ later.queued) (step-fifo r call)
    ∙ append_assoc now.got now.recorder.queue later.queued
    ∙ ap (λ q. now.got ++ q) (run-fifo calls now.recorder)
    ∙ sym (append_assoc now.got later.got later.recorder.queue)

abbrev pub IsSmall : Call → Type 0
IsSmall (offer ev) = event_len ev < 2 ^ 63
IsSmall take = Unit {0}
IsSmall stop = Unit {0}

step-QueueInv :
    (r : Recorder) (call : Call) → IsSmall call → QueueInv r → QueueInv (step r call).recorder
unfolding step request_stop
step-QueueInv r (offer ev) h v = enqueue_event-QueueInv r ev h v
step-QueueInv r take h v = from (take_event r) refl
  where
    from : (t : Taken) → take_event r ≡ t → QueueInv (after_take r t).recorder
    from waiting e = v
    from finished e = v
    from (taken ev s) e = take_event-QueueInv r s ev e v
step-QueueInv r stop h v = ground arith

-- Over any interleaving of offers of packets below 2 ^ 63 bytes, takings and a stop, `queued_bytes`
-- stays the bytes of the packets in the queue and within the limit, and `queued_events` their number
-- of events.
pub run-QueueInv :
    (calls : List Call) (r : Recorder)
    → All IsSmall calls
    → QueueInv r
    → QueueInv (run r calls).recorder
unfolding run
run-QueueInv [] r h v = v
run-QueueInv (call ∷ calls) r h v =
    run-QueueInv calls (step r call).recorder h.1 (step-QueueInv r call h.0 v)

abbrev pub takes : ℕ → List Call
takes zero = []
takes (suc n) = take ∷ takes n

drain :
    (q : List RecorderEvent) (r : Recorder)
    → r.queue ≡ q
    → r.running ≡ false
    → ((run r (takes (length q))).got ≡ q)
      × (take_event (run r (takes (length q))).recorder ≡ finished)
unfolding run step take_event without_head
drain [] r e h = ground arith
drain (ev ∷ evs) r e h = ground (arith, drain evs (without_head r ev evs))

-- Stopping loses no queued event: after `compressed_recorder_stop` has cleared the flags, as many
-- takings as there are events give all of them in order, and then the writer thread ends.
pub request_stop-drains :
    (r : Recorder)
    → r.configured ≡ true
    → let out = run (request_stop r) (takes (length r.queue)) in
      (out.got ≡ r.queue) × (take_event out.recorder ≡ finished)
unfolding request_stop
request_stop-drains r h = ground (arith, drain r.queue (request_stop r))
