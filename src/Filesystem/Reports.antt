-- ===== src/Filesystem/Reports.antt =====
-- What the operations on the file system report.
use coasio.Common.{ℕ, ◌≡◌, refl, Bool, true, false, if◌then◌else◌, ◌==◌, ◌⊎◌, inl, inr}
use coasio.Error.{cancelled}
use coasio.Blocking.{fresh_block, execute, mark_cancelled, await_resume}
use coasio.Filesystem.{
  Call, done, system_error, coasio_error, thrown, awaited, code_after, give, checked_call,
}

ran {ℓ} :
    {A : Type ℓ} (code : ℕ) (end : A ⊎ ℕ)
    → checked_call false (record { code = code; end = end })
      ≡ elim end [ inr e ↦ thrown e | inl v ↦ if code == 0 then done v else system_error code ]
unfolding checked_call awaited code_after give fresh_block execute mark_cancelled await_resume
ran code (inl v) = refl
ran code (inr e) = refl

-- Of a call that was given back before it ran, the operation reports the cancellation; of one that ran,
-- an exception before an error code, an error code before a value.
pub checked_call_lem {ℓ} :
    {A : Type ℓ} (off : Bool) (call : Call A)
    → checked_call off call ≡ (
        if off then coasio_error cancelled else elim call.end [
          | inr e ↦ thrown e
          | inl v ↦ if call.code == 0 then done v else system_error call.code
        ])
unfolding checked_call awaited code_after give fresh_block execute mark_cancelled await_resume
checked_call_lem true call = refl
checked_call_lem false call = ran call.code call.end
