-- ===== src/Server/Session.antt =====
-- server.c: `client_handler` with `handle_packet`.
use myworkspace.Prelude.{ℕ}
use myworkspace.Server.Receive.{ConnNet, client_loop}
use myworkspace.Server.Receive.Bounded.{RecvFits, client_loop-keeps}
use myworkspace.Server.Dispatch.{ServerEnv, Live}
use myworkspace.Server.Dispatch.Handle.{handle_packet}
use myworkspace.Server.Dispatch.Handle.Inv.{LiveInv}
use myworkspace.Server.Dispatch.Handle.Keeps.{handle_packet-LiveInv}

-- A session with a peer that may send anything, at any pace, over a `recv` that gives at most what it is
-- asked for, in a server where no other handler thread changes anything meanwhile, keeps a server that is
-- in order in order: every stream has a decoder exactly where
-- `decoder_initialized` is set and has information where it is active, the recorder's counters tell its
-- queue, which stays within its limit, a stress test is under way only where its flag is set, and the
-- thread never waits for a lock that it holds itself.
pub client_loop-LiveInv :
    {V W : Type 0} (net : ConnNet V) (env : ServerEnv W) (rounds fd size : ℕ) (v : V) (l : Live W)
    → RecvFits net
    → LiveInv l
    → LiveInv (client_loop net (handle_packet env) rounds fd size v l).1.1
client_loop-LiveInv net env rounds fd size v l laws inv =
    client_loop-keeps laws (handle_packet env) LiveInv
      (λ h payload l small inv. handle_packet-LiveInv env h payload l small inv) rounds fd size v l
      inv
