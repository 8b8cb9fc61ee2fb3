-- ===== src/Filesystem/File/Opened.antt =====
-- The flags of an opened file, and what a cancelled operation on a file reports.
use coasio.Common.{ℕ, ◌≡◌, refl, true, false, some, arith, inl, if◌then◌else◌, ◌==◌}
use coasio.Error.{cancelled}
use coasio.Blocking.{fresh_block, execute, mark_cancelled, await_resume}
use coasio.Filesystem.{
  Call, done, system_error, coasio_error, awaited, code_after, give, checked_call,
}
use coasio.Filesystem.File.{
  SeekOrigin, AsioFile, unchecked_call, open_file, opened, seek, size, resize, sync_data, sync_all,
  resize_random, sync_data_random, sync_all_random,
}

-- A cancelled operation leaves the file as it was. That of a random access file, and the size or
-- the seeking in a stream, report the cancellation; resizing or syncing a stream reports success.
pub cancelled_on_file :
    {H : Type 0} (asio : AsioFile H) (h : H) (n : ℕ) (origin : SeekOrigin)
    → (size asio true h ≡ (h, coasio_error cancelled))
      × (seek asio true h n origin ≡ (h, coasio_error cancelled))
      × (resize_random asio true h n ≡ (h, coasio_error cancelled))
      × (sync_data_random asio true h ≡ (h, coasio_error cancelled))
      × (sync_all_random asio true h ≡ (h, coasio_error cancelled))
      × (resize asio true h n ≡ (h, done tt))
      × (sync_data asio true h ≡ (h, done tt))
      × (sync_all asio true h ≡ (h, done tt))
unfolding size seek resize_random sync_data_random sync_all_random resize sync_data sync_all
    unchecked_call checked_call awaited code_after give fresh_block mark_cancelled await_resume
cancelled_on_file asio h n origin = (refl, refl, refl, refl, refl, refl, refl, refl)

-- On a thread of a runtime `rt`, opening reports what asio does for it.
pub open_elsewhere {ℓ} :
    {A : Type ℓ} (flags rt : ℕ) (file : A) (call : ℕ → ℕ → Call A)
    → (call rt flags).end ≡ inl file
    → open_file (some flags) false (some rt) call
      ≡ (if (call rt flags).code == 0 then done file else system_error (call rt flags).code)
unfolding open_file opened fresh_block execute await_resume
open_elsewhere flags rt file call e = ground (arith, e)
