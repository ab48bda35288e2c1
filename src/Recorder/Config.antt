-- ===== src/Recorder/Config.antt =====
-- compressed_recorder.c: the configuration, the list of streams to record, and the start. `sscanf` is
-- the parameter `scan`; a token is what `strtok_r` cuts at commas.
pub mod Streams
pub mod Start
use myworkspace.Prelude.{
  ℕ, zero, suc, ◌+◌, ◌-◌, ◌*◌, List, [], ◌∷◌, ◌++◌, Option, none, some, Bool, true, false, not,
  ◌&&◌, ◌||◌, ltb, leb, ◌==◌, if◌then◌else◌, length, take, bytes_eq,
}
use myworkspace.Protocol.{max_streams, default_max_streams}
use myworkspace.Recorder.{Recorder, zero_recorder, update}
use myworkspace.Recorder.Os.{Os}
use myworkspace.Recorder.Params.{is_empty}
use myworkspace.Recorder.Storage.{path_has_nfs_mount}
use myworkspace.Recorder.Paths.{mkdir_p}

abbrev pub default_segment_sec : ℕ
default_segment_sec = 1800

abbrev pub default_idr_interval_sec : ℕ
default_idr_interval_sec = 30

abbrev pub default_queue_bytes : ℕ
default_queue_bytes = 256 * 1024 * 1024

pub record RecorderConfig : Type 0 where
  pub record_dir : List ℕ
  pub streams_spec : List ℕ
  pub max_streams : ℕ
  pub segment_sec : ℕ
  pub idr_interval_sec : ℕ
  pub queue_bytes : ℕ
  pub require_nfs_mount : Bool

unfoldable pub config_defaults : RecorderConfig
config_defaults = record {
  record_dir = [];
  streams_spec = [];
  max_streams = default_max_streams;
  segment_sec = default_segment_sec;
  idr_interval_sec = default_idr_interval_sec;
  queue_bytes = default_queue_bytes;
  require_nfs_mount = false;
}

-- What the two calls of `sscanf` make of an item: "a-b", else "a", else neither.
pub data Scan : Type 0 where
  range : ℕ → ℕ → Scan
  one : ℕ → Scan
  neither : Scan

abbrev pub is_space : ℕ → Bool
is_space ch = ch == 32 || (leb 9 ch && leb ch 13)

unfoldable pub skip_spaces : List ℕ → List ℕ
skip_spaces [] = []
skip_spaces (ch ∷ rest) = let later = skip_spaces rest in if is_space ch then later else ch ∷ rest

-- The non-empty pieces between commas; `piece` is the piece so far.
unfoldable pub tokens : List ℕ → List ℕ → List (List ℕ)
tokens piece [] = if is_empty piece then [] else piece ∷ []
tokens piece (ch ∷ rest) =
    let cut = tokens [] rest in
    let longer = tokens (piece ++ (ch ∷ [])) rest in
    if not (ch == b',') then longer else if is_empty piece then cut else piece ∷ cut

-- `for (sid = a; sid <= b; sid++) if (sid > 0) enabled_streams[sid] = true;`, `n` rounds of it.
unfoldable pub enable_from : ℕ → ℕ → (ℕ → Bool) → ℕ → Bool
enable_from zero sid enabled = enabled
enable_from (suc n) sid enabled =
    enable_from n (sid + 1) (if ltb 0 sid then update enabled sid true else enabled)

unfoldable pub enable_up_to : ℕ → ℕ → ℕ → (ℕ → Bool) → ℕ → Bool
enable_up_to limit a b = enable_from ((if ltb limit b then limit else b) + 1 - a) a

unfoldable pub enable_scan : ℕ → Scan → (ℕ → Bool) → ℕ → Bool
enable_scan limit (range a b) enabled =
    if ltb b a then enable_up_to limit b a enabled else enable_up_to limit a b enabled
enable_scan limit (one a) enabled =
    if ltb 0 a && leb a limit then update enabled a true else enabled
enable_scan limit neither enabled = enabled

abbrev pub means_all : List ℕ → Bool
means_all spec =
    is_empty spec || (bytes_eq spec (b'a' ∷ b'l' ∷ b'l' ∷ []) || bytes_eq spec (b'*' ∷ []))

abbrev pub stream_limit : ℕ → ℕ
stream_limit n = if ltb n 1 || ltb max_streams n then default_max_streams else n

abbrev pub raw_of : List ℕ → List ℕ
raw_of dir = dir ++ (b'/' ∷ b'r' ∷ b'a' ∷ b'w' ∷ [])

module _ (scan : List ℕ → Scan) where
  unfoldable pub enable_item : ℕ → List ℕ → (ℕ → Bool) → ℕ → Bool
  enable_item limit item enabled =
      let text = skip_spaces item in
      if is_empty text then enabled else enable_scan limit (scan text) enabled

  unfoldable pub enable_items : ℕ → List (List ℕ) → (ℕ → Bool) → ℕ → Bool
  enable_items limit [] enabled = enabled
  enable_items limit (item ∷ items) enabled =
      enable_items limit items (enable_item limit item enabled)

  -- The array `enabled_streams` that `parse_streams_spec` leaves; the text is cut at 255 bytes.
  unfoldable pub parse_streams_spec : ℕ → List ℕ → ℕ → Bool
  parse_streams_spec limit spec =
      if means_all spec
      then enable_from limit 1 (λ i. false)
      else enable_items limit (tokens [] (take 255 spec)) (λ i. false)

  -- The recorder before its thread starts.
  unfoldable pub configured_recorder : RecorderConfig → Bool → Bool → ℕ → Recorder
  configured_recorder cfg mounted has_callback now = record zero_recorder {
    record_dir = cfg.record_dir;
    raw_dir = raw_of cfg.record_dir;
    max_streams = stream_limit cfg.max_streams;
    segment_sec = (if cfg.segment_sec == 0 then default_segment_sec else cfg.segment_sec);
    idr_interval_sec = cfg.idr_interval_sec;
    queue_limit_bytes = (if cfg.queue_bytes == 0 then default_queue_bytes else cfg.queue_bytes);
    require_nfs_mount = cfg.require_nfs_mount;
    nfs_mounted = mounted;
    last_mount_check_ns = now;
    has_request_idr = has_callback;
    enabled_streams = parse_streams_spec (stream_limit cfg.max_streams) cfg.streams_spec;
  }

module _ (scan : List ℕ → Scan) {W : Type 0} (os : Os W) where
  abbrev mount_state : RecorderConfig → W → Bool × W
  mount_state cfg w =
      if not cfg.require_nfs_mount then (true, w) else path_has_nfs_mount os cfg.record_dir w

  -- `thread` says whether `pthread_create` succeeds. The first part of the result is the return
  -- code, `true` for 0.
  launch : Recorder → Bool → Bool × W → Bool × (W × Recorder)
  launch r thread (made, w) =
      if r.nfs_mounted && not made
      then (false, (w, zero_recorder))
      else if not thread
      then (false, (w, zero_recorder))
      else (true, (w, record r { running = true; accepting = true; configured = true }))

  unfoldable pub start_fresh : RecorderConfig → Bool → Bool → W → Bool × (W × Recorder)
  unfolding launch
  start_fresh cfg has_callback thread w =
      if leb 512 (length cfg.record_dir)
      then (false, (w, zero_recorder))
      else if leb 512 (length (raw_of cfg.record_dir))
      then (false, (w, zero_recorder))
      else (let (mounted, w1) = mount_state cfg w in
          let (now, w2) = os.now_monotonic_ns w1 in
          let r = configured_recorder scan cfg mounted has_callback now in
          launch r thread (if mounted then mkdir_p os r.raw_dir w2 else (true, w2)))

  unfoldable pub start : Recorder → RecorderConfig → Bool → Bool → W → Bool × (W × Recorder)
  start g cfg has_callback thread w =
      if is_empty cfg.record_dir
      then (true, (w, g))
      else if g.running
      then (true, (w, g))
      else start_fresh cfg has_callback thread w
