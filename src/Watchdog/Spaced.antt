-- ===== src/Watchdog/Spaced.antt =====
-- server.c: the watchdogs together do not flood the sender.
use myworkspace.Prelude.{
  ℕ, ◌+◌, ◌≤◌, ◌<◌, ◌≡◌, ◌⊎◌, ◌^◌, inl, inr, List, [], ◌∷◌, Bool, true, false, if◌then◌else◌, arith,
  subst, refl,
}
use myworkspace.Watchdog.{
  StreamWatch, second_ns, request_idr_for_stream, request_idr_for_no_decode,
  request_idr_for_decode_stall, note_counters, restart_watch,
}

-- Who goes through `stream->lock`: a STREAM_START that resets the watchdogs, or who asks: a message, the
-- end of a STREAM_START or a packet that cannot be used, or one of the two watchdogs.
pub data Source : Type 0 where
  restart explicit no_decode decode_stall : Source

-- One call, with its two readings of the clock, which the code makes before it takes the lock; before it
-- the other threads have moved the counters and the state of the stream.
pub record Tick : Type 0 where
  pub source : Source
  pub active : Bool
  pub decoder_initialized : Bool
  pub frames_received : ℕ
  pub frames_decoded : ℕ
  pub now : ℕ
  pub later : ℕ

abbrev pub moved : StreamWatch → Tick → StreamWatch
moved s t = record s {
  active = t.active;
  decoder_initialized = t.decoder_initialized;
  frames_received = t.frames_received;
  frames_decoded = t.frames_decoded;
}

unfoldable pub ask : Source → StreamWatch → ℕ → ℕ → Bool × StreamWatch
ask Source.restart s now later = (false, restart_watch s now)
ask Source.explicit s now later = request_idr_for_stream s later
ask Source.no_decode s now later = request_idr_for_no_decode s now later
ask Source.decode_stall s now later = request_idr_for_decode_stall s now later

-- What a stream goes through: a new session, or a request_at to its sender with the time.
pub data Told : Type 0 where
  session : Told
  request_at : ℕ → Told

unfoldable pub told : Source → Bool → ℕ → List Told → List Told
told Source.restart hit at rest = session ∷ rest
told _ hit at rest = if hit then request_at at ∷ rest else rest

-- The sessions and the requests, in order.
unfoldable pub asked : StreamWatch → List Tick → List Told
unfolding told
asked s [] = []
asked s (t ∷ ts) =
    let (hit, s1) = ask t.source (moved s t) t.now t.later in
    told t.source hit t.later (asked s1 ts)

-- The callers read the clock in the order in which they take the lock, from `at` on, and it does not go back.
abbrev pub Runs : ℕ → List Tick → Type 0
Runs at [] = Unit
Runs at (t ∷ ts) = (at ≤ t.now) × (t.now ≤ t.later) × (t.later < 2 ^ 64) × Runs t.later ts

-- In a session, each time is a second or more behind the one before; `last` is 0 where there was none.
abbrev pub IsSpaced : ℕ → List Told → Type 0
IsSpaced last [] = Unit
IsSpaced last (session ∷ ts) = IsSpaced 0 ts
IsSpaced last (request_at t ∷ ts) = ((last ≡ 0) ⊎ (last + second_ns ≤ t)) × IsSpaced t ts

-- A call that asks takes the place of the last request, a second or more behind it; one that does not ask
-- leaves it, unless it starts a session.
IsAsked : Source → ℕ → ℕ → Bool × StreamWatch → Type 0
IsAsked Source.restart last later (hit, s) = s.last_idr_request_ns ≡ 0
IsAsked _ last later (hit, s) =
    ((hit ≡ true) × (s.last_idr_request_ns ≡ later) × ((last ≡ 0) ⊎ (last + second_ns ≤ later)))
    ⊎ ((hit ≡ false) × (s.last_idr_request_ns ≡ last))

ask-IsAsked :
    (source : Source) (s : StreamWatch) (now later : ℕ)
    → s.last_idr_request_ns ≤ later
    → later < 2 ^ 64
    → IsAsked source s.last_idr_request_ns later (ask source s now later)
unfolding ask IsAsked request_idr_for_stream request_idr_for_no_decode request_idr_for_decode_stall
    note_counters restart_watch
ask-IsAsked Source.restart s now later le small = refl
ask-IsAsked Source.explicit s now later le small = ground arith
ask-IsAsked Source.no_decode s now later le small = ground arith
ask-IsAsked Source.decode_stall s now later le small = ground arith

IsSpaced-if :
    (hit : Bool) (last last1 later : ℕ) (rest : List Told)
    → (((hit ≡ true) × (last1 ≡ later) × ((last ≡ 0) ⊎ (last + second_ns ≤ later)))
        ⊎ ((hit ≡ false) × (last1 ≡ last)))
    → IsSpaced last1 rest
    → IsSpaced last (if hit then request_at later ∷ rest else rest)
IsSpaced-if true last last1 later rest (inl (h, e, gap)) spaced =
    (gap, subst (λ l. IsSpaced l rest) e spaced)
IsSpaced-if true last last1 later rest (inr (h, e)) spaced = absurd (ground arith)
IsSpaced-if false last last1 later rest (inl (h, e, gap)) spaced = absurd (ground arith)
IsSpaced-if false last last1 later rest (inr (h, e)) spaced = subst (λ l. IsSpaced l rest) e spaced

IsSpaced-told :
    (source : Source) (last later : ℕ) (out : Bool × StreamWatch) (rest : List Told)
    → IsAsked source last later out
    → IsSpaced out.1.last_idr_request_ns rest
    → IsSpaced last (told source out.0 later rest)
unfolding told IsAsked
IsSpaced-told Source.restart last later (hit, s) rest e spaced =
    subst (λ l. IsSpaced l rest) e spaced
IsSpaced-told Source.explicit last later (hit, s) rest step spaced =
    IsSpaced-if hit last s.last_idr_request_ns later rest step spaced
IsSpaced-told Source.no_decode last later (hit, s) rest step spaced =
    IsSpaced-if hit last s.last_idr_request_ns later rest step spaced
IsSpaced-told Source.decode_stall last later (hit, s) rest step spaced =
    IsSpaced-if hit last s.last_idr_request_ns later rest step spaced

-- The last request is no later than the call.
ask-le :
    (source : Source) (s : StreamWatch) (now later : ℕ)
    → s.last_idr_request_ns ≤ later
    → (ask source s now later).1.last_idr_request_ns ≤ later
unfolding ask request_idr_for_stream request_idr_for_no_decode request_idr_for_decode_stall
    note_counters restart_watch
ask-le Source.restart s now later le = omega arith
ask-le Source.explicit s now later le = ground arith
ask-le Source.no_decode s now later le = ground arith
ask-le Source.decode_stall s now later le = ground arith

-- Whatever the two watchdogs and the other callers see, in whatever order they run and wherever a
-- STREAM_START resets them: where the callers read the clock in the order in which they take the lock, the
-- clock does not go back and starts no earlier than the last request, the sender of a stream is asked for
-- a keyframe at most once a second between one STREAM_START and the next.
pub asked-IsSpaced :
    (s : StreamWatch) (at : ℕ) (ts : List Tick)
    → s.last_idr_request_ns ≤ at
    → Runs at ts
    → IsSpaced s.last_idr_request_ns (asked s ts)
unfolding asked
asked-IsSpaced s at [] le runs = tt
asked-IsSpaced s at (t ∷ ts) le (from, on, small, runs) =
    let out = ask t.source (moved s t) t.now t.later in
    IsSpaced-told t.source s.last_idr_request_ns t.later out (asked out.1 ts)
      (ask-IsAsked t.source (moved s t) t.now t.later (omega arith) small)
      (asked-IsSpaced out.1 t.later ts (ask-le t.source (moved s t) t.now t.later (omega arith))
        runs)
