-- ===== src/Peer/Timers.antt =====
-- The timers of `handle_peer` of peer.rs over many rounds.
use metalbond_rs.Types.{Ipnet, connection_state_eq}
use metalbond_rs.Wire.{Prost}
use metalbond_rs.Codec.{GeneratedMessage, encode}
use metalbond_rs.State.Actions.{done, fail, waits, deadlock, Exit, Done}
use metalbond_rs.Peer.Session.{
  Session, Event, shutdown, frame, frame_error, end_of_stream, outbound, interval_tick, timeout,
  is_enabled, start_timers, start_timers_if, after_message, after_write, after_shutdown, finish,
  write_message, branch, step,
}
use metalbond_rs.Common.{ℕ, Bool, true, false, Option, none, some, List, [], ◌∷◌, ◌≡◌, refl, arith}

module _ {Net : Type 0} ⦃i : Ipnet Net⦄ ⦃prost : Prost⦄ where
  -- The rounds of the loop: each is the branch that completes, and whether the timeout was polled.
  unfoldable pub rounds : List (Event × Bool) → Session Net → Session Net
  rounds [] s = s
  rounds ((e, polled) ∷ es) s = rounds es (step e polled s).1

  -- The timers were started, and the one of the timeout is gone.
  abbrev IsDisarmed : Session Net → Type 0
  IsDisarmed s = (s.interval_on ≡ true) × (s.timeout_armed ≡ false)

  abbrev LeavesDisarmed : Exit Done × Session Net → Type 0
  LeavesDisarmed r = IsDisarmed r.1

  timers_if_disarmed :
      (b : Bool) (s : Session Net) → b ≡ false → IsDisarmed s → LeavesDisarmed (start_timers_if b s)
  unfolding start_timers_if
  timers_if_disarmed true s q h = absurd (cc)
  timers_if_disarmed false s q h = h

  after_message_disarmed :
      (x : Exit Done) (s : Session Net) → IsDisarmed s → LeavesDisarmed (after_message (x, s))
  unfolding after_message start_timers
  after_message_disarmed (done a) s h = timers_if_disarmed _ s (ground (arith, h.0)) h
  after_message_disarmed (fail e) s h = h
  after_message_disarmed waits s h = h
  after_message_disarmed deadlock s h = h

  after_shutdown_disarmed :
      (x : Exit Done) (s : Session Net) → IsDisarmed s → LeavesDisarmed (after_shutdown (x, s))
  unfolding after_shutdown finish
  after_shutdown_disarmed (done a) s h = h
  after_shutdown_disarmed (fail e) s h = h
  after_shutdown_disarmed waits s h = h
  after_shutdown_disarmed deadlock s h = h

  write_disarmed :
      (bytes : Option (List ℕ)) (io_ok : Bool) (m : GeneratedMessage) (s : Session Net)
      → IsDisarmed s
      → LeavesDisarmed (after_write bytes io_ok m s)
  unfolding after_write
  write_disarmed none io_ok m s h = h
  write_disarmed (some bytes) true m s h = h
  write_disarmed (some bytes) false m s h = h

  queue_disarmed :
      (io_ok : Bool) (ms : List GeneratedMessage) (s : Session Net)
      → IsDisarmed s
      → LeavesDisarmed (write_message io_ok ms s)
  unfolding write_message
  queue_disarmed io_ok [] s h = h
  queue_disarmed io_ok (m ∷ ms) s h = write_disarmed (encode m []) io_ok m _ h

  branch_disarmed : (e : Event) (s : Session Net) → IsDisarmed s → LeavesDisarmed (branch e s)
  unfolding branch
  branch_disarmed shutdown s h = after_shutdown_disarmed _ _ h
  branch_disarmed (frame m) s h = after_message_disarmed _ _ h
  branch_disarmed frame_error s h = h
  branch_disarmed end_of_stream s h = h
  branch_disarmed (outbound io_ok) s h = queue_disarmed io_ok s.world.peer.tx_queue s h
  branch_disarmed interval_tick s h = h
  branch_disarmed timeout s h = (h.0, refl)

  rounds-IsDisarmed :
      (es : List (Event × Bool)) (s : Session Net) → IsDisarmed s → IsDisarmed (rounds es s)
  unfolding rounds step
  rounds-IsDisarmed [] s h = h
  rounds-IsDisarmed ((e, polled) ∷ es) s h =
      rounds-IsDisarmed es _ (branch_disarmed e _ (h.0, ground (arith, h.1)))

  -- Once the timers are started, one round that polls the keepalive timeout and completes by another
  -- branch ends it for good: whatever the later rounds are, messages of the peer among them, the branch
  -- of the timeout is disabled after them, so a peer that falls silent is never timed out.
  pub rounds-timeout :
      (e : Event) (es : List (Event × Bool)) (s : Session Net)
      → s.interval_on ≡ true
      → is_enabled timeout (rounds ((e, true) ∷ es) s) ≡ false
  unfolding rounds is_enabled step
  rounds-timeout e es s on = (rounds-IsDisarmed es _ (branch_disarmed e _ (on, ground (arith)))).1
