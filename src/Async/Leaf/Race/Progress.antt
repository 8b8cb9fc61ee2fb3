-- ===== src/Async/Leaf/Race/Progress.antt =====
-- No interleaving of Async.Leaf.Race is stuck before the coroutine is scheduled.
use coasio.Common.{suc, ◌≡◌, refl, Bool, false, is_some, arith, Bool-cases, inl, inr}
use coasio.CancelScope.{ArmResult}
use coasio.Async.Leaf.{Leaf}
use coasio.Async.Leaf.Race.{
  Pc, begin, armed, waiting, refused, World, begin_world, Step, arm, arm_refused, initiate,
  complete, callback, Reach, here, next,
}
use coasio.Async.Leaf.Race.Safety.{is_refused, scheduled_once}

module _ {ℓ} {S C R : Type ℓ} (leaf : Leaf S C R) where
  pub Reach-trans : {u v w : World leaf} → Reach leaf u v → Reach leaf v w → Reach leaf u w
  Reach-trans r here = r
  Reach-trans r (next s st) = next (Reach-trans r s) st

  -- A later state in which the coroutine was scheduled once more.
  abbrev pub Resumable : World leaf → Type ℓ
  Resumable w = (u : World leaf) × Reach leaf w u × (u.scheduled ≡ suc w.scheduled)

  waiting_lem :
      (c : C) (w : World leaf) → w.pc ≡ waiting → is_some w.completion ≡ false → Resumable w
  waiting_lem c w p n = elim (Bool-cases w.firing) [
    | inl f ↦ (_, next (next here (callback f)) (complete c p n refl), refl)
    | inr f ↦ (_, next here (complete c p n f), refl)
  ]

  armed_lem : (c : C) (w : World leaf) → w.pc ≡ armed → is_some w.completion ≡ false → Resumable w
  armed_lem c w p n =
      let (u, r, e) = waiting_lem c (record w { pc = waiting }) refl n in
      (u, Reach-trans (next here (initiate p)) r, e)

  begin_lem : (c : C) (w : World leaf) → w.pc ≡ begin → is_some w.completion ≡ false → Resumable w
  begin_lem c w p n = elim (Bool-cases w.off) [
    | inl off ↦ (_, next here (arm_refused p off), refl)
    | inr live ↦
        (let st : Step leaf w
              (record w { pc = armed; awaiter = (leaf.suspend w.awaiter ArmResult.armed).0 }) =
            arm p live in
          let (u, r, e) =
            armed_lem c
              (record w { pc = armed; awaiter = (leaf.suspend w.awaiter ArmResult.armed).0 }) refl
              n in
          (u, Reach-trans (next here st) r, e))
  ]

  pending_lem :
      (c : C) (w : World leaf) (pc : Pc)
      → w.pc ≡ pc
      → is_refused pc ≡ false
      → is_some w.completion ≡ false
      → Resumable w
  pending_lem c w begin p q n = begin_lem c w p n
  pending_lem c w armed p q n = armed_lem c w p n
  pending_lem c w waiting p q n = waiting_lem c w p n
  pending_lem c w refused p q n = cc

  -- For every awaitable on asio, from every state that a new awaiter reaches in any interleaving,
  -- a state can be reached in which its coroutine has been scheduled, once: none of them is
  -- stuck, if asio has a completion to give.
  pub always_resumable :
      (c : C) (s : S) (off : Bool) (w : World leaf)
      → Reach leaf (begin_world leaf s off) w
      → (u : World leaf) × Reach leaf w u × (u.scheduled ≡ 1)
  always_resumable c s off w r =
      let (count, most, _) = scheduled_once leaf s off w r in
      elim (Bool-cases (is_refused w.pc)) [
        | inl q ↦ (w, here, ground (arith, count, most, q))
        | inr q ↦ elim (Bool-cases (is_some w.completion)) [
          | inl n ↦ (w, here, ground (arith, count, q, n))
          | inr n ↦
              let (u, later, e) = pending_lem c w w.pc refl q n in
              (u, later, ground (arith, e, count, q, n))
        ]
      ]
