-- ===== src/Tap/Clients.antt =====
-- h264_tap.c: the slots of the clients.
pub mod Stale
use myworkspace.Prelude.{
  ℕ, List, [], ◌∷◌, Bool, true, false, not, Option, some, none, if◌then◌else◌, ◌||◌, is_some,
}
use myworkspace.Tap.{TapClient}
use myworkspace.Tap.Net.{TapNet, Peek}
use myworkspace.Tap.Flush.{client_close}

-- The first slot that is not active gets the connection. Its buffer and its `need_idr` stay as they are.
unfoldable pub place : ℕ → ℕ → List TapClient → Bool × List TapClient
place fd sid [] = (false, [])
place fd sid (c ∷ clients) =
    let (placed, rest) = place fd sid clients in
    if not c.active
    then (true, record c { fd = some fd; stream_id = sid; active = true } ∷ clients)
    else (placed, c ∷ rest)

module _ {W : Type 0} (net : TapNet W) where
  after_peek : TapClient → Peek × W → TapClient × W
  after_peek c (Peek.bytes_wait, w) = (c, w)
  after_peek c (Peek.end_of_stream, w) = client_close net c w
  after_peek c (Peek.nothing_yet, w) = (c, w)
  after_peek c (Peek.peek_failed, w) = client_close net c w

  unfoldable pub prune_dead_clients : List TapClient → W → List TapClient × W
  unfolding after_peek
  prune_dead_clients [] w = ([], w)
  prune_dead_clients (c ∷ clients) w =
      let (c1, w1) =
        if not c.active || not (is_some c.fd) then (c, w) else after_peek c (net.peek c.fd w) in
      let (rest, w2) = prune_dead_clients clients w1 in (c1 ∷ rest, w2)

  -- What `accept_loop` does with a connection that subscribes to `sid`.
  unfoldable pub add_client : ℕ → ℕ → List TapClient → W → List TapClient × W
  add_client fd sid clients w =
      let (clients1, w1) = prune_dead_clients clients w in
      let (placed, clients2) = place fd sid clients1 in
      if placed
      then (clients2, w1)
      else (let (clients3, w3) = prune_dead_clients clients2 w1 in
          let (again, clients4) = place fd sid clients3 in
          (clients4, (if again then w3 else net.close (some fd) w3)))

  -- The last loop of `h264_tap_stop`.
  unfoldable pub close_all : List TapClient → W → List TapClient × W
  close_all [] w = ([], w)
  close_all (c ∷ clients) w =
      let (c1, w1) = if c.active then client_close net c w else (c, w) in
      let (rest, w2) = close_all clients w1 in (c1 ∷ rest, w2)
