-- ===== src/MetalBond/Connections.antt =====
-- `manage_single_outgoing_connection` of metalbond.rs: the task that keeps one connection of a client.
-- Its awaits end in events: which branch of a `select!` completes, and with what.
use metalbond_rs.HashMap.{get, insert, remove}
use metalbond_rs.HashMap.Laws.{get-remove}
use metalbond_rs.Types.{
  SocketAddr, Config, ConnectionDirection, ConnectionState, closed, as_secs, from_secs, Duration,
  socket_addr_eq, connection_state_eq,
}
use metalbond_rs.State.{new_peer}
use metalbond_rs.MetalBond.{Node, put_peer}
use metalbond_rs.Common.{
  ℕ, ◌+◌, ◌≤◌, Bool, false, Option, none, some, ltb, ◌==◌, ==_self, if◌then◌else◌, ◌≡◌, refl, ap,
  sym, subst, ◌⊎◌, ◌∙◌, arith, Bool-cases, inl, inr,
}

-- Where the task waits; `panicked` is what `gen_range` does on an empty range.
pub data Phase : Type 0 where
  attempting serving : Phase
  delaying : Duration → Phase
  stopped panicked : Phase

-- What ends a wait: the shutdown signal, the connection (with the number of the new peer), a failure to
-- connect, the end of `handle_peer`, or the delay. The number with the last three is drawn by `rand`.
pub data Signal : Type 0 where
  shutdown : Signal
  connected : ℕ → Signal
  refused : ℕ → Signal
  handler_ended : ℕ → Signal
  elapsed : Signal

-- `gen_range(min..=max)` of rand: the value drawn by an offset into the range, if there is a value.
unfoldable pub retry_delay : Config → ℕ → Phase
retry_delay config offset =
    let low = as_secs config.retry_interval_min in
    let high = as_secs config.retry_interval_max in
    if ltb high low
    then panicked
    else delaying (from_secs (if ltb high (low + offset) then high else low + offset))

unfoldable pub is_closed : Option ConnectionState → Bool
is_closed none = false
is_closed (some s) = s == closed

-- The phases of a retry within the configured interval.
abbrev pub IsRetry : Config → Phase → Type 0
IsRetry config (delaying d) =
    (from_secs (as_secs config.retry_interval_min) ≤ d)
    × (d ≤ from_secs (as_secs config.retry_interval_max))
IsRetry config phase = ⊥

retry_delay-IsRetry :
    (config : Config) (offset : ℕ)
    → as_secs config.retry_interval_min ≤ as_secs config.retry_interval_max
    → IsRetry config (retry_delay config offset)
unfolding retry_delay
retry_delay-IsRetry config offset ordered =
    let low : ℕ = as_secs config.retry_interval_min in
    let high : ℕ = as_secs config.retry_interval_max in
    elim (Bool-cases (ltb high low)) [
      | inl empty ↦ absurd (ground (arith, ordered, empty))
      | inr full ↦ elim (Bool-cases (ltb high (low + offset))) [
        | inl over ↦ rw (full, over) (omega (arith, ordered), omega arith)
        | inr within ↦ rw (full, within) (omega arith, ground (arith, within))
      ]
    ]

retry_delay_runs : (config : Config) (offset : ℕ) → ¬ (retry_delay config offset ≡ stopped)
unfolding retry_delay
retry_delay_runs config offset =
    elim (Bool-cases
      (ltb (as_secs config.retry_interval_max) (as_secs config.retry_interval_min))) [
        | inl empty ↦ rw (empty) (λ e. cc)
        | inr full ↦ rw (full) (λ e. cc)
      ]

module _ {Net : Type 0} where
  -- The state of the peer at an address, if the map has one.
  unfoldable pub state_at : Option ℕ → Node Net → Option ConnectionState
  state_at none n = none
  state_at (some k) n = some (n.heap k).state

  -- The end of the task takes its handle out of the map.
  unfoldable pub stop : SocketAddr → Node Net → Phase × Node Net
  unfolding remove
  stop target_addr n =
      (stopped, record n { mb = record (n.mb) { peer_tasks = remove target_addr n.mb.peer_tasks } })

  unfoldable pub serve : Config → SocketAddr → ℕ → Node Net → Phase × Node Net
  unfolding insert
  serve config target_addr k n = (
    serving,
    record n {
      mb = record (n.mb) { peers = insert target_addr k n.mb.peers };
      heap = put_peer k (new_peer config target_addr ConnectionDirection.outgoing) n.heap;
    },
  )

  -- After `handle_peer`: the peer leaves the map, and then its state is looked up there.
  unfoldable pub after_handler : Config → SocketAddr → ℕ → Node Net → Phase × Node Net
  unfolding remove get state_at is_closed stop retry_delay
  after_handler config target_addr offset n =
      let left = record n { mb = record (n.mb) { peers = remove target_addr n.mb.peers } } in
      if is_closed (state_at (get target_addr left.mb.peers) left)
      then stop target_addr left
      else (retry_delay config offset, left)

  -- One wait of the task; a signal that the phase does not wait for changes nothing.
  unfoldable pub manage : Config → SocketAddr → Signal → Phase → Node Net → Phase × Node Net
  unfolding serve stop after_handler retry_delay
  manage config target_addr shutdown attempting n = stop target_addr n
  manage config target_addr (connected k) attempting n = serve config target_addr k n
  manage config target_addr (refused offset) attempting n = (retry_delay config offset, n)
  manage config target_addr (handler_ended offset) serving n =
      after_handler config target_addr offset n
  manage config target_addr shutdown (delaying d) n = stop target_addr n
  manage config target_addr elapsed (delaying d) n = (attempting, n)
  manage config target_addr signal phase n = (phase, n)

  after_handler-retry_delay :
      (config : Config) (target_addr : SocketAddr) (offset : ℕ) (n : Node Net)
      → (after_handler config target_addr offset n).0 ≡ retry_delay config offset
  unfolding after_handler state_at is_closed
  after_handler-retry_delay config target_addr offset n =
      let gone : get target_addr (remove target_addr n.mb.peers) ≡ none =
        get-remove target_addr target_addr n.mb.peers
        ∙ ap (λ b. if b then none else get target_addr n.mb.peers) (==_self target_addr) in
      rw (gone) refl

  -- The end of a connection is always followed by a retry, also when its peer was closed: the peer has
  -- left the map before its state is looked up. The delay is within the configured interval, in whole
  -- seconds, where that interval is not empty.
  pub manage-IsRetry :
      (config : Config) (target_addr : SocketAddr) (offset : ℕ) (n : Node Net)
      → as_secs config.retry_interval_min ≤ as_secs config.retry_interval_max
      → IsRetry config (manage config target_addr (handler_ended offset) serving n).0
  unfolding manage
  manage-IsRetry config target_addr offset n ordered =
      subst (IsRetry config) (sym (after_handler-retry_delay config target_addr offset n))
        (retry_delay-IsRetry config offset ordered)

  -- The task of a connection stops at the shutdown signal only.
  pub manage-stopped :
      (config : Config) (target_addr : SocketAddr) (signal : Signal) (phase : Phase) (n : Node Net)
      → (manage config target_addr signal phase n).0 ≡ stopped
      → (signal ≡ shutdown) ⊎ (phase ≡ stopped)
  unfolding manage serve
  manage-stopped config target_addr shutdown phase n e = inl refl
  manage-stopped config target_addr (refused offset) attempting n e =
      absurd (retry_delay_runs config offset e)
  manage-stopped config target_addr (handler_ended offset) serving n e = absurd (
      retry_delay_runs config offset
        (sym (after_handler-retry_delay config target_addr offset n) ∙ e))
  manage-stopped config target_addr signal stopped n e = inr refl
  manage-stopped config target_addr signal phase n e = absurd (cc)
