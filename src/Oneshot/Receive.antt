-- ===== src/Oneshot/Receive.antt =====
-- Who is resumed, and with what: the receiver's awaiter against the calls of the other side.
use coasio.Common.{
  ℕ, ◌≡◌, refl, ap, ◌⊎◌, ◌∙◌, Bool, true, false, ◌&&◌, ◌||◌, List, [], ◌∷◌, append-nil, none, some,
  arith, is_some, if◌then◌else◌, inl, inr, Bool-cases, Option-cases,
}
use coasio.CancelScope.{ArmResult}
use coasio.Error.{cancelled, channel_closed, ok, err}
use coasio.Oneshot.{
  State, ToWake, schedule_if, set_value, mark_sender_dropped, mark_receiver_dropped,
  cancel_and_take_waiter, await_suspend, await_resume,
}
use coasio.Oneshot.Operations.{
  resolved, Inv, Op, sends, drops_sender, drops_receiver, cancels, step, run, step-Inv, run-Inv,
}

module _ {ℓ} {A : Type ℓ} where
  -- What one call does to the coroutine that waits.
  record Wakes (s s' : State A) (out : List ToWake) : Type ℓ where
    out_lem : out ≡ (if resolved s' then schedule_if s.rt s.waiter else [])
    waiter : s'.waiter ≡ (if resolved s' then none else s.waiter)
    rt : s'.rt ≡ s.rt
    stays : resolved s ≡ true → resolved s' ≡ true

  step-Wakes : (s : State A) (o : Op A) → Inv s → Wakes s (step s o).0 (step s o).1
  unfolding step set_value mark_sender_dropped mark_receiver_dropped cancel_and_take_waiter
  step-Wakes s (sends v) i = record {
    out_lem = ground arith;
    waiter = ground arith;
    rt = ground arith;
    stays = λ h. ground arith;
  }
  step-Wakes s drops_sender i = record {
    out_lem = ground arith;
    waiter = ground arith;
    rt = ground arith;
    stays = λ h. ground arith;
  }
  step-Wakes s drops_receiver i = record {
    out_lem = ground arith;
    waiter = ground arith;
    rt = ground arith;
    stays = λ h. ground arith;
  }
  step-Wakes s cancels i = record {
    out_lem = ground arith;
    waiter = ground arith;
    rt = ground arith;
    stays = λ h. ground arith;
  }

  run-Wakes : (s : State A) (ops : List (Op A)) → Inv s → Wakes s (run s ops).0 (run s ops).1
  unfolding run
  run-Wakes s [] i = record {
    out_lem = ground arith;
    waiter = ground arith;
    rt = refl;
    stays = λ h. h;
  }
  run-Wakes s (o ∷ ops) i =
      let first = step-Wakes s o i in
      let rest = run-Wakes (step s o).0 ops (step-Inv s o i) in
      record {
        out_lem = ground (
          arith,
          first.out_lem,
          first.waiter,
          first.rt,
          first.stays,
          rest.out_lem,
          rest.stays,
          append-nil (step s o).1,
        );
        waiter = ground (arith, first.waiter, rest.waiter, rest.stays);
        rt = rest.rt ∙ first.rt;
        stays = λ h. rest.stays (first.stays h);
      }

  idle-run :
      (s : State A) (ops : List (Op A))
      → Inv s
      → s.waiter ≡ none
      → ((run s ops).1 ≡ []) × ((run s ops).0.waiter ≡ none)
  idle-run s ops i idle =
      let w = run-Wakes s ops i in (ground (arith, w.out_lem), ground (arith, w.waiter))

  await_suspend-Inv : (s : State A) (r : ArmResult) (h : ℕ) → Inv s → Inv (await_suspend s r h).0
  unfolding await_suspend
  await_suspend-Inv s ArmResult.already_cancelled h i = i
  await_suspend-Inv s ArmResult.armed h i = ground arith

  await_suspend-waiter :
      (s : State A) (r : ArmResult) (h : ℕ)
      → s.waiter ≡ none
      → ((await_suspend s r h).0.waiter ≡ (if (await_suspend s r h).1 then some h else none))
        × ((await_suspend s r h).0.rt ≡ s.rt)
  unfolding await_suspend
  await_suspend-waiter s ArmResult.already_cancelled h idle = (idle, refl)
  await_suspend-waiter s ArmResult.armed h idle = ground arith

  -- On a channel in a well-formed state at which nobody waits, the receiver is resumed by the
  -- other side exactly if it suspended and the channel has been resolved since, and then once:
  -- whatever calls come before its `await_suspend` and after it, and however the guard was armed.
  pub receiver_resumed_once :
      (s : State A) (before after : List (Op A)) (r : ArmResult) (h : ℕ)
      → Inv s
      → s.waiter ≡ none
      → let s₁ = (run s before).0 in
        let (s₂, suspended) = await_suspend s₁ r h in
        let (s₃, woken) = run s₂ after in
        ((run s before).1 ≡ [])
        × (woken ≡ (if suspended && resolved s₃ then record { rt = s.rt; handle = h } ∷ [] else []))
  receiver_resumed_once s before after r h i idle =
      let first = run-Wakes s before i in
      let (quiet, idle₁) = idle-run s before i idle in
      let s₁ = (run s before).0 in
      let i₁ = run-Inv s before i in
      let s₂ = (await_suspend s₁ r h).0 in
      let (waits, same) = await_suspend-waiter s₁ r h idle₁ in
      let later = run-Wakes s₂ after (await_suspend-Inv s₁ r h i₁) in
      (quiet, ground (arith, later.out_lem, waits, same, first.rt))

  -- On a channel in a well-formed state `await_resume` never reads an empty `value_`: it returns
  -- the value that was sent, or `cancelled` if the channel or the scope was cancelled, or else
  -- `channel_closed`.
  pub await_resume_total :
      (s : State A) (off : Bool)
      → Inv s
      → ((v : A) × (s.ready ≡ true) × (await_resume s off ≡ some (ok v)))
        ⊎ ((s.ready ≡ false)
            × (await_resume s off
                ≡ some (err (if s.was_cancelled || off then cancelled else channel_closed))))
  unfolding await_resume
  await_resume_total s off i = elim (Bool-cases s.ready) [
    | inl e ↦ elim (Option-cases s.value) [
      | inl missing ↦ cc (ap is_some missing ∙ refl, i.full, e)
      | inr (v, held) ↦ inl (v, e, rw (e, held))
    ]
    | inr e ↦ inr (e, ground arith)
  ]
