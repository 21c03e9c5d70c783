-- ===== src/State/Actions.antt =====
-- The actions that peer.rs is written in: errors, the lock of the shared state, the channel of route
-- updates, and loops.
use metalbond_rs.Types.{InternalUpdate}
use metalbond_rs.State.{Peer, MetalBondState, route_update_buffer_size}
use metalbond_rs.Common.{
  ℕ, ◌+◌, ◌-◌, Bool, true, false, ◌||◌, not, List, [], ◌∷◌, ◌++◌, length, ltb, leb, if◌then◌else◌,
}

-- The errors of peer.rs.
pub data PeerError : Type 0 where
  tx_full tx_closed : PeerError
  invalid_keepalive_interval keepalive_in_wrong_state : PeerError
  unknown_action missing_destination missing_next_hop : PeerError
  invalid_destination invalid_next_hop : PeerError

-- How an action ends. `waits` is a send on the full channel of route updates; `deadlock` is a wait for
-- the lock of the shared state while the same task holds it.
pub data Exit (A : Type 0) : Type 0 where
  done : A → Exit A
  fail : PeerError → Exit A
  waits : Exit A
  deadlock : Exit A

-- `readers` and `writer`: the guards of the shared state's lock that this task holds.
pub record World (Net : Type 0) : Type 0 where
  pub peer : Peer
  pub mb : MetalBondState Net
  pub readers : ℕ
  pub writer : Bool

abbrev pub M : Type 0 → Type 0 → Type 0
M Net A = World Net → Exit A × World Net

abbrev pub Done : Type 0
Done = Unit {0}

module _ {Net : Type 0} where
  unfoldable pub pure : {A : Type 0} → A → M Net A
  pure a w = (done a, w)

  unfoldable pub bail : {A : Type 0} → PeerError → M Net A
  bail e w = (fail e, w)

  -- `if let Err(e) = m { handler }`
  unfoldable pub or_else : M Net Done → M Net Done → M Net Done
  or_else m handler w = elim (m w).0 [
    | done a ↦ (done a, (m w).1)
    | fail e ↦ handler (m w).1
    | waits ↦ (waits, (m w).1)
    | deadlock ↦ (deadlock, (m w).1)
  ]

  unfoldable pub gets : {A : Type 0} → (Peer → A) → M Net A
  gets f w = (done (f w.peer), w)

  unfoldable pub change_peer : (Peer → Peer) → M Net Done
  change_peer f w = (done tt, record w { peer = f w.peer })

  -- Reads of the shared state through a guard that is held.
  unfoldable pub view : {A : Type 0} → (MetalBondState Net → A) → M Net A
  view f w = (done (f w.mb), w)

  -- A change of the shared state through a guard that is held, with its result.
  unfoldable pub change : {A : Type 0} → (MetalBondState Net → MetalBondState Net × A) → M Net A
  change f w = let (mb, a) = f w.mb in (done a, record w { mb = mb })

  -- The choice between two actions.
  infix 1 when◌then◌else◌
  unfoldable pub when◌then◌else◌ : {A : Type 0} → Bool → M Net A → M Net A → M Net A
  when b then m else n = if b then m else n

  infixl 5 ◌>>=◌ ◌>>◌
  -- Opening this opens the basic actions too.
  unfoldable pub ◌>>=◌ : {A B : Type 0} → M Net A → (A → M Net B) → M Net B
  unfolding pure bail or_else gets change_peer view change when◌then◌else◌
  ◌>>=◌ m f w = elim (m w).0 [
    | done a ↦ f a (m w).1
    | fail e ↦ (fail e, (m w).1)
    | waits ↦ (waits, (m w).1)
    | deadlock ↦ (deadlock, (m w).1)
  ]

  unfoldable pub ◌>>◌ : {B : Type 0} → M Net Done → M Net B → M Net B
  unfolding ◌>>=◌
  m >> k = m >>= λ _. k

  -- `if let Err(e) = m { handler; return Err(e); }`
  unfoldable pub on_fail : M Net Done → M Net Done → M Net Done
  unfolding ◌>>◌
  on_fail m handler w = elim (m w).0 [
    | done a ↦ (done a, (m w).1)
    | fail e ↦ (handler >> bail e) (m w).1
    | waits ↦ (waits, (m w).1)
    | deadlock ↦ (deadlock, (m w).1)
  ]

  -- `state.read().await`: waits for the guards of other tasks, and for ever for this task's own.
  unfoldable pub lock_read : M Net Done
  lock_read w = if w.writer then (deadlock, w) else (done tt, record w { readers = w.readers + 1 })

  unfoldable pub drop_read : M Net Done
  drop_read w = (done tt, record w { readers = w.readers - 1 })

  -- `state.write().await`
  unfoldable pub lock_write : M Net Done
  lock_write w =
      if w.writer || ltb 0 w.readers then (deadlock, w) else (done tt, record w { writer = true })

  unfoldable pub drop_write : M Net Done
  drop_write w = (done tt, record w { writer = false })

  -- A read whose guard lives for one statement.
  unfoldable pub reading : {A : Type 0} → (MetalBondState Net → A) → M Net A
  unfolding lock_read drop_read
  reading f = do lock_read; a ← view f; drop_read; pure a

  -- `route_update_tx.send(update).await`; a closed channel gives an error, which peer.rs only logs.
  unfoldable pub send_route_update : InternalUpdate Net → M Net Done
  send_route_update update w =
      if not w.mb.route_updates_open
      then (done tt, w)
      else if leb route_update_buffer_size (length w.mb.route_updates)
      then (waits, w)
      else (
        done tt,
        record w { mb = record (w.mb) { route_updates = w.mb.route_updates ++ update ∷ [] } },
      )

  -- `for a in xs { body }`
  unfoldable pub for_each : {A : Type 0} → (A → M Net Done) → List A → M Net Done
  for_each body [] = pure tt
  for_each body (a ∷ xs) = do body a; for_each body xs
