-- ===== src/Filesystem.antt =====
-- include/coasio/filesystem.hpp: each operation runs a function of `std::filesystem` on the blocking
-- pool. These functions are parameters of the model; a call of one leaves an error code, 0 for none,
-- and returns or throws.
pub mod Reports
pub mod File
mod Examples
use coasio.Common.{
  ℕ, zero, suc, Bool, true, false, Option, none, some, if◌then◌else◌, ◌==◌, ◌⊎◌, inl, inr,
}
use coasio.Error.{Error, Expected, ok, err}
use coasio.Blocking.{
  ControlBlock, Resumed, returned, rethrown, undefined, fresh_block, execute, mark_cancelled,
  await_resume,
}

pub record Call {ℓ} (A : Type ℓ) : Type ℓ where
  pub code : ℕ
  pub end : A ⊎ ℕ

-- The result of a task of this file: a value, an error of the system or of the library, an exception,
-- or a read of an `expected` that holds no value.
pub data Reported {ℓ} (A : Type ℓ) : Type ℓ where
  done : A → Reported A
  system_error : ℕ → Reported A
  coasio_error : Error → Reported A
  thrown : ℕ → Reported A
  undefined_read : Reported A

-- `ec` behind the call, which only the function writes.
unfoldable pub code_after : Bool → ℕ → ℕ
code_after off code = if off then 0 else code

module _ {ℓ} {A : Type ℓ} where
  -- `co_await spawn_blocking(f)`; the flag says that the pool gave the function back before it ran.
  unfoldable pub awaited : Bool → A ⊎ ℕ → Resumed A
  awaited off end =
      await_resume (some (if off then mark_cancelled fresh_block else execute end fresh_block))

  -- `co_return status`
  unfoldable pub give : Expected A → Reported A
  give (ok v) = done v
  give (err e) = coasio_error e

  -- The body that the operations share.
  unfoldable pub checked_call : Bool → Call A → Reported A
  checked_call off call = elim (awaited off call.end) [
    | rethrown e ↦ thrown e
    | undefined ↦ undefined_read
    | returned status ↦
        if code_after off call.code == 0
        then give status
        else system_error (code_after off call.code)
  ]

-- The functions of `std::filesystem` that the operations call, and the types they speak of.
pub record StdFilesystem : Type 1 where
  pub FilePath : Type 0
  pub FileStatus : Type 0
  pub FileTime : Type 0
  pub SpaceInfo : Type 0
  pub Perms : Type 0
  pub PermOptions : Type 0
  pub CopyOptions : Type 0
  pub file_size : FilePath → Call ℕ
  pub exists : FilePath → Call Bool
  pub is_regular_file : FilePath → Call Bool
  pub is_directory : FilePath → Call Bool
  pub is_symlink : FilePath → Call Bool
  pub status : FilePath → Call FileStatus
  pub symlink_status : FilePath → Call FileStatus
  pub hard_link_count : FilePath → Call ℕ
  pub equivalent : FilePath → FilePath → Call Bool
  pub last_write_time : FilePath → Call FileTime
  pub set_last_write_time : FilePath → FileTime → Call (Unit {0})
  pub create_directory : FilePath → Call Bool
  pub create_directories : FilePath → Call Bool
  pub remove : FilePath → Call Bool
  pub remove_all : FilePath → Call ℕ
  pub rename : FilePath → FilePath → Call (Unit {0})
  pub copy : FilePath → FilePath → CopyOptions → Call (Unit {0})
  pub copy_file : FilePath → FilePath → CopyOptions → Call Bool
  pub copy_symlink : FilePath → FilePath → Call (Unit {0})
  pub create_hard_link : FilePath → FilePath → Call (Unit {0})
  pub create_symlink : FilePath → FilePath → Call (Unit {0})
  pub create_directory_symlink : FilePath → FilePath → Call (Unit {0})
  pub read_symlink : FilePath → Call FilePath
  pub absolute : FilePath → Call FilePath
  pub canonical : FilePath → Call FilePath
  pub weakly_canonical : FilePath → Call FilePath
  pub relative : FilePath → FilePath → Call FilePath
  pub proximate : FilePath → FilePath → Call FilePath
  pub current_path : Call FilePath
  pub set_current_path : FilePath → Call (Unit {0})
  pub temp_directory_path : Call FilePath
  pub space : FilePath → Call SpaceInfo
  pub permissions : FilePath → Perms → PermOptions → Call (Unit {0})

module _ (fs : StdFilesystem) (off : Bool) where
  pub file_size : fs.FilePath → Reported ℕ
  file_size a = checked_call off (fs.file_size a)

  pub exists : fs.FilePath → Reported Bool
  exists a = checked_call off (fs.exists a)

  pub is_regular_file : fs.FilePath → Reported Bool
  is_regular_file a = checked_call off (fs.is_regular_file a)

  pub is_directory : fs.FilePath → Reported Bool
  is_directory a = checked_call off (fs.is_directory a)

  pub is_symlink : fs.FilePath → Reported Bool
  is_symlink a = checked_call off (fs.is_symlink a)

  pub status : fs.FilePath → Reported fs.FileStatus
  status a = checked_call off (fs.status a)

  pub symlink_status : fs.FilePath → Reported fs.FileStatus
  symlink_status a = checked_call off (fs.symlink_status a)

  pub hard_link_count : fs.FilePath → Reported ℕ
  hard_link_count a = checked_call off (fs.hard_link_count a)

  pub equivalent : fs.FilePath → fs.FilePath → Reported Bool
  equivalent a b = checked_call off (fs.equivalent a b)

  pub last_write_time : fs.FilePath → Reported fs.FileTime
  last_write_time a = checked_call off (fs.last_write_time a)

  pub set_last_write_time : fs.FilePath → fs.FileTime → Reported (Unit {0})
  set_last_write_time a b = checked_call off (fs.set_last_write_time a b)

  pub create_directory : fs.FilePath → Reported Bool
  create_directory a = checked_call off (fs.create_directory a)

  pub create_directories : fs.FilePath → Reported Bool
  create_directories a = checked_call off (fs.create_directories a)

  pub remove : fs.FilePath → Reported Bool
  remove a = checked_call off (fs.remove a)

  pub remove_all : fs.FilePath → Reported ℕ
  remove_all a = checked_call off (fs.remove_all a)

  pub rename : fs.FilePath → fs.FilePath → Reported (Unit {0})
  rename a b = checked_call off (fs.rename a b)

  pub copy : fs.FilePath → fs.FilePath → fs.CopyOptions → Reported (Unit {0})
  copy a b c = checked_call off (fs.copy a b c)

  pub copy_file : fs.FilePath → fs.FilePath → fs.CopyOptions → Reported Bool
  copy_file a b c = checked_call off (fs.copy_file a b c)

  pub copy_symlink : fs.FilePath → fs.FilePath → Reported (Unit {0})
  copy_symlink a b = checked_call off (fs.copy_symlink a b)

  pub create_hard_link : fs.FilePath → fs.FilePath → Reported (Unit {0})
  create_hard_link a b = checked_call off (fs.create_hard_link a b)

  pub create_symlink : fs.FilePath → fs.FilePath → Reported (Unit {0})
  create_symlink a b = checked_call off (fs.create_symlink a b)

  pub create_directory_symlink : fs.FilePath → fs.FilePath → Reported (Unit {0})
  create_directory_symlink a b = checked_call off (fs.create_directory_symlink a b)

  pub read_symlink : fs.FilePath → Reported fs.FilePath
  read_symlink a = checked_call off (fs.read_symlink a)

  pub absolute : fs.FilePath → Reported fs.FilePath
  absolute a = checked_call off (fs.absolute a)

  pub canonical : fs.FilePath → Reported fs.FilePath
  canonical a = checked_call off (fs.canonical a)

  pub weakly_canonical : fs.FilePath → Reported fs.FilePath
  weakly_canonical a = checked_call off (fs.weakly_canonical a)

  pub relative : fs.FilePath → fs.FilePath → Reported fs.FilePath
  relative a b = checked_call off (fs.relative a b)

  pub proximate : fs.FilePath → fs.FilePath → Reported fs.FilePath
  proximate a b = checked_call off (fs.proximate a b)

  pub current_path : Reported fs.FilePath
  current_path = checked_call off fs.current_path

  pub set_current_path : fs.FilePath → Reported (Unit {0})
  set_current_path a = checked_call off (fs.set_current_path a)

  pub temp_directory_path : Reported fs.FilePath
  temp_directory_path = checked_call off fs.temp_directory_path

  pub space : fs.FilePath → Reported fs.SpaceInfo
  space a = checked_call off (fs.space a)

  pub permissions : fs.FilePath → fs.Perms → fs.PermOptions → Reported (Unit {0})
  permissions a b c = checked_call off (fs.permissions a b c)
