-- ===== src/Peer/Guards.antt =====
-- The guards of the shared state's lock that an action of peer.rs takes and gives back: rules for the
-- ways in which actions are composed, and the actions of peer.rs that take no part of a session.
use metalbond_rs.Types.{InternalUpdate}
use metalbond_rs.State.{Peer, MetalBondState}
use metalbond_rs.State.Actions.{
  PeerError, done, fail, waits, deadlock, Exit, World, M, Done, pure, bail, ◌>>=◌, ◌>>◌, or_else,
  on_fail, gets, change_peer, view, change, lock_read, drop_read, lock_write, drop_write, reading,
  send_route_update, for_each, when◌then◌else◌,
}
use metalbond_rs.Common.{
  ℕ, ◌+◌, ◌-◌, Bool, true, false, ◌||◌, List, [], ◌∷◌, ltb, if◌then◌else◌, ◌≡◌, refl, ap, arith,
}

-- What an action leaves: the guards `r` and `b` if it goes on, no guard if it fails, and some guard if
-- it waits.
abbrev pub Leaves : {Net A : Type 0} → ℕ → Bool → Exit A × World Net → Type 0
Leaves r b (done a, w) = (w.readers ≡ r) × (w.writer ≡ b)
Leaves r b (fail e, w) = (w.readers ≡ 0) × (w.writer ≡ false)
Leaves r b (waits, w) = (ltb 0 w.readers || w.writer) ≡ true
Leaves r b (deadlock, w) = (ltb 0 w.readers || w.writer) ≡ true

module _ {Net : Type 0} where
  -- From the guards `r` and `b` to `r'` and `b'`.
  pub record Moves (r : ℕ) (b : Bool) (r' : ℕ) (b' : Bool) {A : Type 0} (m : M Net A) : Type 0 where
    pub at : (w : World Net) → w.readers ≡ r → w.writer ≡ b → Leaves r' b' (m w)

  -- An action that starts and ends without a guard.
  abbrev pub Returns : {A : Type 0} → M Net A → Type 0
  Returns m = Moves 0 false 0 false m

  pub Moves-pure : {A : Type 0} {r : ℕ} {b : Bool} (a : A) → Moves r b r b (pure a)
  unfolding pure
  Moves-pure a = record { at = λ w h k. (h, k) }

  pub Returns-bail : {A : Type 0} (e : PeerError) → Returns {A = A} (bail e)
  unfolding bail
  Returns-bail e = record { at = λ w h k. (h, k) }

  pub Moves-gets : {A : Type 0} {r : ℕ} {b : Bool} (f : Peer → A) → Moves r b r b (gets f)
  unfolding gets
  Moves-gets f = record { at = λ w h k. (h, k) }

  pub Moves-change_peer : {r : ℕ} {b : Bool} (f : Peer → Peer) → Moves r b r b (change_peer f)
  unfolding change_peer
  Moves-change_peer f = record { at = λ w h k. (h, k) }

  pub Moves-change :
      {A : Type 0} {r : ℕ} {b : Bool} (f : MetalBondState Net → MetalBondState Net × A)
      → Moves r b r b (change f)
  unfolding change
  Moves-change f = record { at = λ w h k. (h, k) }

  pub Moves-bind :
      {A B : Type 0} {r r' r'' : ℕ} {b b' b'' : Bool} (m : M Net A) (f : A → M Net B)
      → Moves r b r' b' m
      → ((a : A) → Moves r' b' r'' b'' (f a))
      → Moves r b r'' b'' (m >>= f)
  unfolding ◌>>=◌
  Moves-bind {A} {B} {r' = r'} {r'' = r''} {b' = b'} {b'' = b''} m f km kf = record {
    at = λ w h k. go (m w).0 (m w).1 (km.at w h k);
  }
    where
      go :
          (x : Exit A) (w : World Net)
          → Leaves r' b' (x, w)
          → Leaves r'' b'' (elim x as (λ _. Exit B × World Net) [
            | done a ↦ f a w
            | fail e ↦ (fail e, w)
            | waits ↦ (waits, w)
            | deadlock ↦ (deadlock, w)
          ])
      go (done a) w h = (kf a).at w h.0 h.1
      go (fail e) w h = h
      go waits w h = h
      go deadlock w h = h

  pub Moves-then :
      {B : Type 0} {r r' r'' : ℕ} {b b' b'' : Bool} (m : M Net Done) (k : M Net B)
      → Moves r b r' b' m
      → Moves r' b' r'' b'' k
      → Moves r b r'' b'' (m >> k)
  unfolding ◌>>◌
  Moves-then m k km kk = Moves-bind m (λ _. k) km (λ _. kk)

  pub take_read : Moves 0 false 1 false lock_read
  unfolding lock_read
  take_read = record { at = λ w h k. rw (k, lock_read) (ap (λ n. n + 1) h, refl) }

  pub give_read : Moves 1 false 0 false drop_read
  unfolding drop_read
  give_read = record { at = λ w h k. (ap (λ n. n - 1) h, k) }

  pub take_write : Moves 0 false 0 true lock_write
  unfolding lock_write
  take_write = record { at = λ w h k. rw (k, lock_write) (rw (h) (refl, refl)) }

  pub give_write : {r : ℕ} → Moves r true r false drop_write
  unfolding drop_write
  give_write = record { at = λ w h k. (h, refl) }

  -- The write lock under a read guard of the same task.
  pub hang : {r : ℕ} {b : Bool} → Moves 1 false r b lock_write
  unfolding lock_write
  hang = record { at = λ w h k. rw (k, lock_write) (rw (h) refl) }

  pub Returns-reading : {A : Type 0} (f : MetalBondState Net → A) → Returns (reading f)
  unfolding reading view
  Returns-reading f = Moves-then _ _ take_read (
      Moves-bind (view f) _ (record { at = λ w h k. (h, k) })
        λ a. Moves-then _ _ give_read (Moves-pure a))

  -- A send on the channel of route updates, under a guard.
  pub Moves-send :
      {r : ℕ} {b : Bool} (u : InternalUpdate Net)
      → (ltb 0 r || b) ≡ true
      → Moves r b r b (send_route_update u)
  unfolding send_route_update
  Moves-send u g = record { at = λ w h k. ground (arith, g, h, k) }

  pub Moves-when :
      {A : Type 0} {r r' : ℕ} {b b' : Bool} (c : Bool) (m n : M Net A)
      → Moves r b r' b' m
      → Moves r b r' b' n
      → Moves r b r' b' (when c then m else n)
  unfolding when◌then◌else◌
  Moves-when true m n km kn = km
  Moves-when false m n km kn = kn

  pub Moves-for_each :
      {A : Type 0} {r : ℕ} {b : Bool} (body : A → M Net Done) (xs : List A)
      → ((a : A) → Moves r b r b (body a))
      → Moves r b r b (for_each body xs)
  unfolding for_each
  Moves-for_each body [] k = Moves-pure tt
  Moves-for_each body (x ∷ xs) k = Moves-then _ _ (k x) (Moves-for_each body xs k)

  pub Returns-or_else :
      (m handler : M Net Done) → Returns m → Returns handler → Returns (or_else m handler)
  unfolding or_else
  Returns-or_else m handler km kh = record { at = λ w h k. go (m w).0 (m w).1 (km.at w h k) }
    where
      go :
          (x : Exit Done) (w : World Net)
          → Leaves 0 false (x, w)
          → Leaves 0 false (elim x as (λ _. Exit Done × World Net) [
            | done a ↦ (done a, w)
            | fail e ↦ handler w
            | waits ↦ (waits, w)
            | deadlock ↦ (deadlock, w)
          ])
      go (done a) w h = h
      go (fail e) w h = kh.at w h.0 h.1
      go waits w h = h
      go deadlock w h = h

  pub Returns-on_fail :
      (m handler : M Net Done) → Returns m → Returns handler → Returns (on_fail m handler)
  unfolding on_fail
  Returns-on_fail m handler km kh = record { at = λ w h k. go (m w).0 (m w).1 (km.at w h k) }
    where
      go :
          (x : Exit Done) (w : World Net)
          → Leaves 0 false (x, w)
          → Leaves 0 false (elim x as (λ _. Exit Done × World Net) [
            | done a ↦ (done a, w)
            | fail e ↦ (handler >> bail e) w
            | waits ↦ (waits, w)
            | deadlock ↦ (deadlock, w)
          ])
      go (done a) w h = h
      go (fail e) w h = (Moves-then handler (bail e) kh (Returns-bail e)).at w h.0 h.1
      go waits w h = h
      go deadlock w h = h
