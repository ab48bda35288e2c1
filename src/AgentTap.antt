-- ===== src/AgentTap.antt =====
-- strem_agent_server/src/h264_tap.c: publishing to the clients of the agent's tap, which keeps the newest
-- parameter sets of every stream for those that join late. The scans for NAL units are those of Tap, whose
-- code this file repeats. An empty parameter set is one that is not there.
pub mod Late
mod Tests
use myworkspace.Prelude.{
  ℕ, zero, suc, ◌+◌, ◌-◌, ◌*◌, List, [], ◌∷◌, ◌++◌, length, Option, none, some, Bool, true, false,
  not, ◌&&◌, ◌||◌, ◌==◌, ltb, leb, if◌then◌else◌, take, drop, sub64,
}
use myworkspace.Recorder.{update}
use myworkspace.Protocol.Agent.{agent_max_streams}
use myworkspace.Tap.{TapConfig}
use myworkspace.Tap.Net.{TapNet, TapSend}
use myworkspace.Tap.Scan.{has_start_code, annexb_contains_nal_type}
use myworkspace.Tap.Flush.{double_until}
use myworkspace.Tap.Publish.{first_nal_type, start_code}

pub record AgentClient : Type 0 where
  pub fd : Option ℕ
  pub stream_id : ℕ
  pub active : Bool
  pub out_buf : List ℕ
  pub out_cap : ℕ
  pub out_len : ℕ
  pub out_off : ℕ
  pub out_start_ns : ℕ
  pub need_idr : Bool
  pub pending_idr : Bool
  pub sps : List ℕ
  pub pps : List ℕ

-- `sps` and `pps` of `g_tap`, by stream.
pub record ParamCache : Type 0 where
  pub sps : ℕ → List ℕ
  pub pps : ℕ → List ℕ

abbrev pub closed_agent_client : AgentClient
closed_agent_client = record {
  fd = none;
  stream_id = 0;
  active = false;
  out_buf = [];
  out_cap = 0;
  out_len = 0;
  out_off = 0;
  out_start_ns = 0;
  need_idr = false;
  pending_idr = false;
  sps = [];
  pps = [];
}

abbrev pub unsent : AgentClient → List ℕ
unsent c = take (c.out_len - c.out_off) (drop c.out_off c.out_buf)

abbrev pub all_sent : AgentClient → AgentClient
all_sent c = record c {
  out_len = 0;
  out_off = 0;
  out_start_ns = 0;
  pending_idr = false;
  need_idr = (if c.pending_idr then false else c.need_idr);
}

-- The stalled rest is dropped; `pending_idr` stays as it is.
abbrev pub drop_rest : TapConfig → AgentClient → AgentClient
drop_rest config c = record c {
  out_len = 0;
  out_off = 0;
  out_start_ns = 0;
  need_idr = (if config.drop_to_idr then true else c.need_idr);
}

unfoldable pub agent_frame : AgentClient → List ℕ → List ℕ
agent_frame c d =
    (if c.need_idr then c.sps ++ c.pps else []) ++ (if has_start_code d then d else start_code ++ d)

-- The first slot that is not active; its buffer stays as it is.
unfoldable pub place_agent :
    ℕ → ℕ → List AgentClient → Option (List AgentClient × AgentClient × List AgentClient)
place_agent fd sid [] = none
place_agent fd sid (c ∷ clients) =
    let rest = place_agent fd sid clients in
    if not c.active
    then some
        ([], record c { fd = some fd; stream_id = sid; active = true; need_idr = true }, clients)
    else elim rest [ none ↦ none | some (before, p, after) ↦ some (c ∷ before, p, after) ]

module _ {W : Type 0} (net : TapNet W) where
  agent_close : AgentClient → W → AgentClient × W
  agent_close c w = (closed_agent_client, net.close c.fd w)

  set_if : {A : Type 0} → A → A → Bool × W → A × W
  set_if old new (true, w) = (new, w)
  set_if old new (false, w) = (old, w)

  unfoldable pub update_global_param_sets : ParamCache → ℕ → List ℕ → W → ParamCache × W
  unfolding set_if
  update_global_param_sets g sid d w =
      let t = first_nal_type d in
      if ltb sid 1 || (ltb agent_max_streams sid || not (has_start_code d))
      then (g, w)
      else if t == 7
      then set_if g (record g { sps = update g.sps sid d }) (net.realloc (length d) w)
      else if t == 8
      then set_if g (record g { pps = update g.pps sid d }) (net.realloc (length d) w)
      else (g, w)

  -- The sets of the stream go to a client that joins.
  unfoldable pub copy_global_param_sets : ParamCache → AgentClient → ℕ → W → AgentClient × W
  unfolding set_if
  copy_global_param_sets g c sid w =
      let (c1, w1) =
        if length (g.sps sid) == 0
        then (c, w)
        else set_if c (record c { sps = g.sps sid }) (net.realloc (length (g.sps sid)) w) in
      let (c2, w2) =
        if length (g.pps sid) == 0
        then (c1, w1)
        else set_if c1 (record c1 { pps = g.pps sid }) (net.realloc (length (g.pps sid)) w1) in
      if ltb sid 1 || ltb agent_max_streams sid then (c, w) else (c2, w2)

  unfoldable pub agent_cache : AgentClient → List ℕ → W → AgentClient × W
  unfolding set_if
  agent_cache c d w =
      let t = first_nal_type d in
      if not (has_start_code d)
      then (c, w)
      else if t == 7
      then set_if c (record c { sps = d }) (net.realloc (length d) w)
      else if t == 8
      then set_if c (record c { pps = d }) (net.realloc (length d) w)
      else (c, w)

  unfoldable pub agent_ensure : AgentClient → ℕ → W → AgentClient × W
  unfolding set_if
  agent_ensure c need w =
      let cap = double_until 64 need (if c.out_cap == 0 then 256 * 1024 else c.out_cap) in
      if leb need c.out_cap
      then (c, w)
      else set_if c (record c { out_cap = cap }) (net.realloc cap w)

  agent_sent :
      (AgentClient → W → Bool × (AgentClient × W))
      → AgentClient
      → TapSend × W
      → Bool × (AgentClient × W)
  unfolding agent_close
  agent_sent next c (TapSend.took n, w) =
      if n == 0 then (true, agent_close c w) else next (record c { out_off = c.out_off + n }) w
  agent_sent next c (TapSend.would_block, w) = (false, (c, w))
  agent_sent next c (TapSend.broken, w) = (true, agent_close c w)

  unfoldable pub agent_flush_loop : ℕ → AgentClient → W → Bool × (AgentClient × W)
  unfolding agent_sent
  agent_flush_loop zero c w = (true, (all_sent c, w))
  agent_flush_loop (suc rounds) c w =
      if ltb c.out_off c.out_len
      then agent_sent (agent_flush_loop rounds) c (net.send c.fd (unsent c) w)
      else (true, (all_sent c, w))

  -- Each round sends at least a byte.
  unfoldable pub agent_flush : AgentClient → W → Bool × (AgentClient × W)
  agent_flush c w =
      if not c.active then (true, (c, w)) else agent_flush_loop (c.out_len - c.out_off) c w

  unfoldable pub agent_drop_stalled : TapConfig → AgentClient → W → AgentClient × W
  agent_drop_stalled config c w =
      let (now, w1) = net.monotonic_ns w in
      if ltb c.out_off c.out_len && not (c.out_start_ns == 0)
      then (if ltb (config.stall_ms * 1000 * 1000) (sub64 now c.out_start_ns)
          then (drop_rest config c, w1)
          else (c, w1))
      else (c, w)

  -- The frame is written into the buffer and sent as far as the socket takes it.
  unfoldable pub agent_write : AgentClient → List ℕ → Bool → W → AgentClient × W
  agent_write c d is_idr w =
      let frame = agent_frame c d in
      let (c1, w1) = agent_ensure c (length frame) w in
      let (now, w2) = net.monotonic_ns w1 in
      if ltb c1.out_cap (length frame)
      then (c1, w1)
      else (agent_flush
          (record c1 {
            out_buf = frame;
            out_len = length frame;
            out_off = 0;
            out_start_ns = now;
            pending_idr = (if c1.need_idr && is_idr then true else c1.pending_idr);
          })
          w2).1

  unfoldable pub agent_gate : AgentClient → List ℕ → Bool → W → AgentClient × W
  agent_gate c d is_idr w = if c.need_idr && not is_idr then (c, w) else agent_write c d is_idr w

  unfoldable pub agent_publish_to : TapConfig → ℕ → List ℕ → AgentClient → W → AgentClient × W
  agent_publish_to config sid d c w =
      let is_idr = annexb_contains_nal_type d 5 in
      let (c1, w1) = agent_cache c d w in
      let (c2, w2) = agent_drop_stalled config c1 w1 in
      let (cleared, (c3, w3)) = agent_flush c2 w2 in
      if not c.active || not (c.stream_id == sid)
      then (c, w)
      else if ltb c2.out_off c2.out_len
      then (if cleared then agent_gate c3 d is_idr w3 else (c3, w3))
      else agent_gate c2 d is_idr w2

  unfoldable pub agent_publish_all :
      TapConfig → ℕ → List ℕ → List AgentClient → W → List AgentClient × W
  agent_publish_all config sid d [] w = ([], w)
  agent_publish_all config sid d (c ∷ clients) w =
      let (c1, w1) = agent_publish_to config sid d c w in
      let (rest, w2) = agent_publish_all config sid d clients w1 in (c1 ∷ rest, w2)

  unfoldable pub agent_publish :
      TapConfig
      → Bool
      → ParamCache
      → ℕ
      → List ℕ
      → List AgentClient
      → W
      → ParamCache × (List AgentClient × W)
  agent_publish config running g sid d clients w =
      let (g1, w1) = update_global_param_sets g sid d w in
      if not running || (length d == 0)
      then (g, (clients, w))
      else (g1, agent_publish_all config sid d clients w1)
