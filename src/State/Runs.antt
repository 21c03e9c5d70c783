-- ===== src/State/Runs.antt =====
-- How composed actions of a peer's task run where their parts are known to run.
use metalbond_rs.State.{MetalBondState}
use metalbond_rs.State.Actions.{
  done, fail, waits, deadlock, World, M, Done, pure, ◌>>=◌, ◌>>◌, or_else, lock_read, drop_read,
  view, reading,
}
use metalbond_rs.Common.{◌+◌, ◌-◌, false, ◌≡◌, refl, ap, ◌∙◌, arith}

module _ {Net : Type 0} where
  -- An action that is done goes on with the next.
  pub bind_done :
      {A B : Type 0} (m : M Net A) (f : A → M Net B) (a : A) (w v : World Net)
      → m w ≡ (done a, v)
      → (m >>= f) w ≡ f a v
  unfolding ◌>>=◌
  bind_done m f a w v e =
      ap
        (λ r. elim r.0 [
          | done b ↦ f b r.1
          | fail x ↦ (fail x, r.1)
          | waits ↦ (waits, r.1)
          | deadlock ↦ (deadlock, r.1)
        ])
        e

  pub then_done :
      {B : Type 0} (m : M Net Done) (k : M Net B) (w v : World Net)
      → m w ≡ (done tt, v)
      → (m >> k) w ≡ k v
  unfolding ◌>>◌
  then_done m k w v e = bind_done m (λ _. k) tt w v e

  pub then_deadlock :
      {B : Type 0} (m : M Net Done) (k : M Net B) (w v : World Net)
      → m w ≡ (deadlock, v)
      → (m >> k) w ≡ (deadlock, v)
  unfolding ◌>>◌ ◌>>=◌
  then_deadlock m k w v e =
      ap
        (λ r. elim r.0 [
          | done b ↦ k r.1
          | fail x ↦ (fail x, r.1)
          | waits ↦ (waits, r.1)
          | deadlock ↦ (deadlock, r.1)
        ])
        e

  pub read_unlocked :
      {A : Type 0} (f : MetalBondState Net → A) (w : World Net)
      → w.writer ≡ false
      → reading f w ≡ (done (f w.mb), w)
  unfolding reading lock_read drop_read view pure
  read_unlocked f w unlocked =
      let held : World Net = record w { readers = w.readers + 1 } in
      let back : (w.readers + 1 - 1) ≡ w.readers = omega arith in
      then_done lock_read _ w held (rw (unlocked) refl)
      ∙ bind_done (view f) _ (f w.mb) held held refl
      ∙ then_done drop_read _ held w (ap (λ n. (done tt, record w { readers = n })) back)

  pub or_else_done :
      (m handler : M Net Done) (w v : World Net)
      → m w ≡ (done tt, v)
      → or_else m handler w ≡ (done tt, v)
  unfolding or_else
  or_else_done m handler w v e =
      ap
        (λ r. elim r.0 [
          | done a ↦ (done a, r.1)
          | fail x ↦ handler r.1
          | waits ↦ (waits, r.1)
          | deadlock ↦ (deadlock, r.1)
        ])
        e
