-- ===== src/Peer/Keeps.antt =====
-- What every action of a peer's task leaves true: rules for the ways in which actions are composed.
use metalbond_rs.State.{Peer, MetalBondState}
use metalbond_rs.State.Actions.{
  PeerError, done, fail, waits, deadlock, Exit, World, M, Done, pure, bail, ◌>>=◌, ◌>>◌, or_else,
  on_fail, gets, view, lock_read, drop_read, reading, for_each, when◌then◌else◌,
}
use metalbond_rs.Peer.Handlers.{or_fail}
use metalbond_rs.Common.{Bool, true, false, Option, none, some, List, [], ◌∷◌, if◌then◌else◌}

module _ {Net : Type 0} where
  pub record Keeps (P : World Net → Type 0) {A : Type 0} (m : M Net A) : Type 0 where
    pub at : (w : World Net) → P w → P (m w).1

  module _ {P : World Net → Type 0} where
    pub keeps_pure : {A : Type 0} (a : A) → Keeps P (pure a)
    unfolding pure
    keeps_pure a = record { at = λ w h. h }

    pub keeps_bail : {A : Type 0} (e : PeerError) → Keeps P {A = A} (bail e)
    unfolding bail
    keeps_bail e = record { at = λ w h. h }

    pub keeps_gets : {A : Type 0} (f : Peer → A) → Keeps P (gets f)
    unfolding gets
    keeps_gets f = record { at = λ w h. h }

    pub keeps_view : {A : Type 0} (f : MetalBondState Net → A) → Keeps P (view f)
    unfolding view
    keeps_view f = record { at = λ w h. h }

    pub keeps_or_fail : {A : Type 0} (e : PeerError) (o : Option A) → Keeps P (or_fail e o)
    unfolding or_fail
    keeps_or_fail e none = keeps_bail e
    keeps_or_fail e (some a) = keeps_pure a

    pub keeps_bind :
        {A B : Type 0} (m : M Net A) (f : A → M Net B)
        → Keeps P m
        → ((a : A) → Keeps P (f a))
        → Keeps P (m >>= f)
    unfolding ◌>>=◌
    keeps_bind {A} {B} m f km kf = record { at = λ w h. go (m w).0 (m w).1 (km.at w h) }
      where
        go :
            (x : Exit A) (w : World Net)
            → P w
            → P
                (elim x as (λ _. Exit B × World Net) [
                  | done a ↦ f a w
                  | fail e ↦ (fail e, w)
                  | waits ↦ (waits, w)
                  | deadlock ↦ (deadlock, w)
                ]).1
        go (done a) w h = (kf a).at w h
        go (fail e) w h = h
        go waits w h = h
        go deadlock w h = h

    pub keeps_then :
        {B : Type 0} (m : M Net Done) (k : M Net B) → Keeps P m → Keeps P k → Keeps P (m >> k)
    unfolding ◌>>◌
    keeps_then m k km kk = keeps_bind m (λ _. k) km (λ _. kk)

    pub keeps_reading :
        {A : Type 0} (f : MetalBondState Net → A)
        → Keeps P lock_read
        → Keeps P drop_read
        → Keeps P (reading f)
    unfolding reading
    keeps_reading f kl kd =
        keeps_then _ _ kl (keeps_bind _ _ (keeps_view f) λ a. keeps_then _ _ kd (keeps_pure a))

    pub keeps_or_else :
        (m handler : M Net Done) → Keeps P m → Keeps P handler → Keeps P (or_else m handler)
    unfolding or_else
    keeps_or_else m handler km kh = record { at = λ w h. go (m w).0 (m w).1 (km.at w h) }
      where
        go :
            (x : Exit Done) (w : World Net)
            → P w
            → P
                (elim x as (λ _. Exit Done × World Net) [
                  | done a ↦ (done a, w)
                  | fail e ↦ handler w
                  | waits ↦ (waits, w)
                  | deadlock ↦ (deadlock, w)
                ]).1
        go (done a) w h = h
        go (fail e) w h = kh.at w h
        go waits w h = h
        go deadlock w h = h

    pub keeps_on_fail :
        (m handler : M Net Done) → Keeps P m → Keeps P handler → Keeps P (on_fail m handler)
    unfolding on_fail
    keeps_on_fail m handler km kh = record { at = λ w h. go (m w).0 (m w).1 (km.at w h) }
      where
        go :
            (x : Exit Done) (w : World Net)
            → P w
            → P
                (elim x as (λ _. Exit Done × World Net) [
                  | done a ↦ (done a, w)
                  | fail e ↦ (handler >> bail e) w
                  | waits ↦ (waits, w)
                  | deadlock ↦ (deadlock, w)
                ]).1
        go (done a) w h = h
        go (fail e) w h = (keeps_then handler (bail e) kh (keeps_bail e)).at w h
        go waits w h = h
        go deadlock w h = h

    pub keeps_when :
        {A : Type 0} (b : Bool) (m n : M Net A)
        → Keeps P m
        → Keeps P n
        → Keeps P (when b then m else n)
    unfolding when◌then◌else◌
    keeps_when true m n km kn = km
    keeps_when false m n km kn = kn

    pub keeps_for_each :
        {A : Type 0} (body : A → M Net Done) (xs : List A)
        → ((a : A) → Keeps P (body a))
        → Keeps P (for_each body xs)
    unfolding for_each
    keeps_for_each body [] k = keeps_pure tt
    keeps_for_each body (x ∷ xs) k = keeps_then _ _ (k x) (keeps_for_each body xs k)
