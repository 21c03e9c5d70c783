-- ===== src/Peer/Handshake.antt =====
-- Two tasks of `handle_peer` of peer.rs at the ends of one connection: the task of an instance that
-- connects and the task of an instance that listens. Each receives what the other has written, in order.
use metalbond_rs.Types.{
  SocketAddr, Config, Ipnet, ConnectionDirection, connecting, hello_sent, established, closed,
  connection_state_eq,
}
use metalbond_rs.Wire.{Prost}
use metalbond_rs.Codec.{GeneratedMessage}
use metalbond_rs.State.{MetalBondState, new_peer}
use metalbond_rs.State.Actions.{done, fail, waits, deadlock, Exit, World, Done}
use metalbond_rs.Peer.{send_hello}
use metalbond_rs.Peer.Session.{
  Session, Event, shutdown, frame, frame_error, end_of_stream, outbound, interval_tick, timeout,
  step, is_enabled, start, say_hello, after_hello, fresh, open_connection,
}
use metalbond_rs.Peer.Keeps.{Keeps, keeps_bind, keeps_reading, keeps_gets}
use metalbond_rs.Peer.Quiet.{
  is_keepalive, carries_keepalive, carries-append, brings_keepalive, IsQuiet, IsQuietSession,
  LeavesQuiet, after_shutdown_quiet, IsQuiet-stable, to_state, not_closed, not_connecting,
  not_hello_sent, step-IsQuietSession,
}
use metalbond_rs.Common.{
  ℕ, zero, suc, Bool, true, false, some, List, [], ◌∷◌, ◌++◌, get_elem?, ◌==◌, ◌≡◌, refl, arith,
}

-- A message among those without a KEEPALIVE is none.
pub get_elem-is_keepalive :
    (ms : List GeneratedMessage) (n : ℕ) (m : GeneratedMessage)
    → carries_keepalive ms ≡ false
    → get_elem? ms n ≡ some m
    → is_keepalive m ≡ false
get_elem-is_keepalive [] n m q e = absurd (cc)
get_elem-is_keepalive (x ∷ xs) zero m q e =
    let same : some x ≡ some m = e in let silent : is_keepalive x ≡ false = ground arith in cc
get_elem-is_keepalive (x ∷ xs) (suc n) m q e = get_elem-is_keepalive xs n m (ground arith) e

-- Whether the event reads a message.
abbrev reads : Event → Bool
reads (frame m) = true
reads _ = false

reads-brings_keepalive : (e : Event) → reads e ≡ false → brings_keepalive e ≡ false
reads-brings_keepalive (frame m) q = absurd (cc)
reads-brings_keepalive shutdown q = refl
reads-brings_keepalive frame_error q = refl
reads-brings_keepalive end_of_stream q = refl
reads-brings_keepalive (outbound io_ok) q = refl
reads-brings_keepalive interval_tick q = refl
reads-brings_keepalive timeout q = refl

-- The two tasks, and how many of the other's messages each has received.
pub record Link (Net : Type 0) : Type 0 where
  pub connecting_side : Session Net
  pub listening_side : Session Net
  pub connecting_read : ℕ
  pub listening_read : ℕ

module _ {Net : Type 0} ⦃i : Ipnet Net⦄ ⦃prost : Prost⦄ where
  -- What other tasks of the same instance do to a session between two of its rounds: they change the
  -- shared state, queue messages other than a KEEPALIVE, and store the permit of a shutdown.
  pub data Elsewhere : Session Net → Session Net → Type 0 where
    share :
        (mb : MetalBondState Net) (s : Session Net)
        → Elsewhere s (record s { world = record (s.world) { mb = mb } })
    queue :
        (m : GeneratedMessage) (s : Session Net)
        → is_keepalive m ≡ false
        → Elsewhere s (record s {
          world = record (s.world) {
            peer = record (s.world.peer) { tx_queue = s.world.peer.tx_queue ++ m ∷ [] };
          };
        })
    permit :
        (s : Session Net)
        → Elsewhere s (record s {
          world = record (s.world) { peer = record (s.world.peer) { shutdown_permit = true } };
        })

  -- A move of one task: a round that reads no message, the next message of the other task, or the work
  -- of a third task. A handler that waits for the channel of route updates or for a lock ends there.
  pub data Move (inbox : List GeneratedMessage) : Session Net × ℕ → Session Net × ℕ → Type 0 where
    round :
        (e : Event) (polled : Bool) (s : Session Net) (n : ℕ)
        → is_enabled e s ≡ true
        → reads e ≡ false
        → Move inbox (s, n) ((step e polled s).1, n)
    receive :
        (m : GeneratedMessage) (polled : Bool) (s : Session Net) (n : ℕ)
        → get_elem? inbox n ≡ some m
        → Move inbox (s, n) ((step (frame m) polled s).1, suc n)
    elsewhere : (s t : Session Net) (n : ℕ) → Elsewhere s t → Move inbox (s, n) (t, n)

  -- Where the tasks begin: each peer is as `Peer::new` leaves it.
  abbrev pub begin : Config → SocketAddr → ConnectionDirection → MetalBondState Net → Session Net
  begin config addr direction mb =
      (start
        (record { peer = new_peer config addr direction; mb = mb; readers = 0; writer = false })).1

  -- The states of the link that the tasks can reach.
  pub data Reach : Link Net → Type 0 where
    opened :
        (config config' : Config) (addr addr' : SocketAddr) (mb mb' : MetalBondState Net)
        → Reach (record {
          connecting_side = begin config addr ConnectionDirection.outgoing mb;
          listening_side = begin config' addr' ConnectionDirection.incoming mb';
          connecting_read = 0;
          listening_read = 0;
        })
    connecting_moves :
        {l : Link Net} (s : Session Net) (n : ℕ)
        → Reach l
        → Move l.listening_side.sent (l.connecting_side, l.connecting_read) (s, n)
        → Reach (record l { connecting_side = s; connecting_read = n })
    listening_moves :
        {l : Link Net} (s : Session Net) (n : ℕ)
        → Reach l
        → Move l.connecting_side.sent (l.listening_side, l.listening_read) (s, n)
        → Reach (record l { listening_side = s; listening_read = n })

  Elsewhere-IsQuiet : {s t : Session Net} → Elsewhere s t → IsQuietSession s → IsQuietSession t
  Elsewhere-IsQuiet (share mb s) h = h
  Elsewhere-IsQuiet (queue m s q) h =
      ((h.0.0, ground (arith, carries-append s.world.peer.tx_queue (m ∷ []))), h.1)
  Elsewhere-IsQuiet (permit s) h = h

  Move-IsQuiet :
      {inbox : List GeneratedMessage} {a b : Session Net × ℕ}
      → Move inbox a b
      → carries_keepalive inbox ≡ false
      → IsQuietSession a.0
      → IsQuietSession b.0
  Move-IsQuiet (round e polled s n on q) silent h =
      step-IsQuietSession e polled s (reads-brings_keepalive e q) h
  Move-IsQuiet (receive m polled s n next) silent h =
      step-IsQuietSession (frame m) polled s (get_elem-is_keepalive _ n m silent next) h
  Move-IsQuiet (elsewhere s t n w) silent h = Elsewhere-IsQuiet w h

  say_hello-IsQuiet : Keeps {Net = Net} IsQuiet say_hello
  unfolding say_hello send_hello
  say_hello-IsQuiet =
      keeps_bind _ _ (keeps_reading _ IsQuiet-stable.read IsQuiet-stable.end_read)
        λ b. keeps_bind _ _ (keeps_gets _) λ k. IsQuiet-stable.send _ refl

  after_hello_quiet :
      (x : Exit Done) (s : Session Net) → IsQuietSession s → LeavesQuiet (after_hello x s)
  unfolding after_hello
  after_hello_quiet (done a) s h = ((to_state hello_sent not_hello_sent).at s.world h.0, h.1)
  after_hello_quiet (fail e) s h =
      after_shutdown_quiet _ _ ((to_state closed not_closed).at s.world h.0, h.1)
  after_hello_quiet waits s h = h
  after_hello_quiet deadlock s h = h

  open_quiet :
      (d : ConnectionDirection) (w : World Net) → IsQuiet w → LeavesQuiet (open_connection d w)
  unfolding open_connection fresh
  open_quiet ConnectionDirection.incoming w h = ((to_state connecting not_connecting).at w h, refl)
  open_quiet ConnectionDirection.outgoing w h =
      after_hello_quiet _ _ (say_hello-IsQuiet.at w h, refl)

  begin-IsQuiet :
      (config : Config) (addr : SocketAddr) (d : ConnectionDirection) (mb : MetalBondState Net)
      → IsQuietSession (begin config addr d mb)
  unfolding start new_peer
  begin-IsQuiet config addr d mb = open_quiet d _ (not_connecting, refl)

  abbrev IsQuietLink : Link Net → Type 0
  IsQuietLink l = IsQuietSession l.connecting_side × IsQuietSession l.listening_side

  Reach-IsQuietLink : {l : Link Net} → Reach l → IsQuietLink l
  Reach-IsQuietLink (opened c c' a a' mb mb') = (
    begin-IsQuiet c a ConnectionDirection.outgoing mb,
    begin-IsQuiet c' a' ConnectionDirection.incoming mb',
  )
  Reach-IsQuietLink (connecting_moves s n r m) =
      let h = Reach-IsQuietLink r in (Move-IsQuiet m h.1.1 h.0, h.1)
  Reach-IsQuietLink (listening_moves s n r m) =
      let h = Reach-IsQuietLink r in (h.0, Move-IsQuiet m h.0.1 h.1)

  -- Two tasks of `handle_peer` that begin with new peers, whatever the two instances, their other tasks
  -- and the timing of the link: as long as the link carries only what the two tasks write, neither of
  -- them is ever established. A handler that waits counts as ended. The connecting side waits for a
  -- KEEPALIVE in HELLO_RECEIVED, the listening side in HELLO_SENT, and each sends its first one only
  -- when it is established.
  pub never_established :
      (l : Link Net)
      → Reach l
      → ((l.connecting_side.world.peer.state == established) ≡ false)
        × ((l.listening_side.world.peer.state == established) ≡ false)
  never_established l r = let h = Reach-IsQuietLink r in (h.0.0.0, h.1.0.0)
