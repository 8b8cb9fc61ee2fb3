-- ===== src/Oneshot/Examples.antt =====
-- Examples: a channel for numbers.
use coasio.Common.{ℕ, ◌≡◌, ◌⊎◌, refl, true, false, ◌&&◌, ◌||◌, [], ◌∷◌, none, some, if◌then◌else◌}
use coasio.CancelScope.{ArmResult}
use coasio.Error.{ok, err, cancelled, channel_closed}
use coasio.Oneshot.{
  State, schedule_if, fresh_state, set_value, is_closed, await_suspend, await_resume,
}
use coasio.Oneshot.Operations.{
  resolved, sends, drops_sender, drops_receiver, cancels, run, fresh_state-Inv, run-Inv,
  set_value_lem, sent_is_received,
}
use coasio.Oneshot.Receive.{receiver_resumed_once, await_resume_total}

abbrev channel : State ℕ
channel = fresh_state

channel-waiter : channel.waiter ≡ none
unfolding fresh_state
channel-waiter = refl

receiver_resumed_once_example :
    let s₁ = (run channel (drops_receiver ∷ [])).0 in
    let (s₂, suspended) = await_suspend s₁ ArmResult.armed 5 in
    let (s₃, woken) = run s₂ (cancels ∷ sends 7 ∷ []) in
    ((run channel (drops_receiver ∷ [])).1 ≡ [])
    × (woken
        ≡ (if suspended && resolved s₃ then record { rt = channel.rt; handle = 5 } ∷ [] else []))
receiver_resumed_once_example =
    receiver_resumed_once channel (drops_receiver ∷ []) (cancels ∷ sends 7 ∷ []) ArmResult.armed 5
      fresh_state-Inv channel-waiter

accepted : (set_value channel 7).1 ≡ none
unfolding set_value fresh_state
accepted = refl

sent_is_received_example :
    let r = run (set_value channel 7).0 (cancels ∷ drops_sender ∷ sends 8 ∷ []) in
    (await_resume r.0 true ≡ some (ok 7)) × (r.1 ≡ [])
sent_is_received_example =
    sent_is_received channel 7 (cancels ∷ drops_sender ∷ sends 8 ∷ []) true accepted

set_value_lem_run :
    let refused = channel.ready || is_closed channel in
    let r = set_value channel 7 in
    (r.1 ≡ (if refused then some 7 else none))
    × (await_resume r.0 false ≡ (if refused then await_resume channel false else some (ok 7)))
    × (r.2 ≡ (if refused then [] else schedule_if channel.rt channel.waiter))
set_value_lem_run = set_value_lem channel 7 false

abbrev ended : State ℕ
ended = (run channel (cancels ∷ [])).0

await_resume_total_run :
    ((v : ℕ) × (ended.ready ≡ true) × (await_resume ended false ≡ some (ok v)))
    ⊎ ((ended.ready ≡ false)
        × (await_resume ended false
            ≡ some (err (if ended.was_cancelled || false then cancelled else channel_closed))))
await_resume_total_run =
    await_resume_total ended false (run-Inv channel (cancels ∷ []) fresh_state-Inv)
