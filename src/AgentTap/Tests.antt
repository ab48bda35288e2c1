-- ===== src/AgentTap/Tests.antt =====
-- A client that has just joined, and two packets without an IDR.
use myworkspace.Prelude.{ℕ, ◌≡◌, List, [], ◌∷◌, ◌++◌, length, some, true, false, arith, refl}
use myworkspace.Tap.{TapConfig}
use myworkspace.Tap.Net.{TapNet, TapSend, Peek}
use myworkspace.Tap.Scan.{annexb_contains_nal_type, scan, code_len_at}
use myworkspace.AgentTap.{AgentClient, closed_agent_client}
use myworkspace.AgentTap.Late.{IsWaiting, agent_publishes, agent_publishes-Quiet}

-- The state is what was sent.
abbrev net : TapNet (List ℕ)
net = record {
  realloc = λ n w. (true, w);
  monotonic_ns = λ w. (7, w);
  send = λ fd d w. (TapSend.took (length d), w ++ d);
  peek = λ fd w. (Peek.nothing_yet, w);
  close = λ fd w. w;
}

abbrev config : TapConfig
config = record { stall_ms = 200; drop_to_idr = true }

abbrev joined : AgentClient
joined = record closed_agent_client { fd = some 4; stream_id = 3; active = true; need_idr = true }

-- A parameter set, and a slice that is no IDR.
abbrev sps : List ℕ
sps = 0 ∷ 0 ∷ 0 ∷ 1 ∷ 103 ∷ 66 ∷ []

abbrev slice : List ℕ
slice = 0 ∷ 0 ∷ 1 ∷ 65 ∷ 9 ∷ []

sps_no_idr : annexb_contains_nal_type sps 5 ≡ false
unfolding annexb_contains_nal_type scan code_len_at
sps_no_idr = refl

slice_no_idr : annexb_contains_nal_type slice 5 ≡ false
unfolding annexb_contains_nal_type scan code_len_at
slice_no_idr = refl

agent_publishes-Quiet_example :
    let (c1, w1) = agent_publishes net config 3 (sps ∷ slice ∷ []) joined [] in
    IsWaiting 3 c1 × (w1 ≡ [])
agent_publishes-Quiet_example =
    agent_publishes-Quiet net (λ w. w) (λ n w. refl) config 3 (sps ∷ slice ∷ []) joined []
      (record { active = refl; stream = refl; need_idr = refl; empty = omega arith })
      (sps_no_idr, (slice_no_idr, tt))
