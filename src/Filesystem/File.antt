-- ===== src/Filesystem/File.antt =====
-- include/coasio/filesystem/file.hpp: the flags that a file is opened with, and the operations that
-- run on the blocking pool. asio's files and flags are parameters; a call on a file gives the file
-- after it. The operations that asio runs itself, which read and write, are not modelled.
pub mod Opened
use coasio.Common.{
  ℕ, ◌≡◌, refl, Bool, true, false, ◌&&◌, ◌||◌, Option, none, some, if◌then◌else◌, ◌==◌, ◌⊎◌, inl,
  inr,
}
use coasio.Error.{Expected, ok, err, cancelled}
use coasio.Blocking.{
  Resumed, returned, rethrown, undefined, fresh_block, execute, mark_cancelled, await_resume,
}
use coasio.Filesystem.{
  Call, Reported, done, system_error, coasio_error, thrown, undefined_read, awaited, code_after,
  give, checked_call,
}

-- A mode may hold a value that is none of the three.
pub data OpenMode : Type 0 where
  read write read_write : OpenMode
  other_mode : ℕ → OpenMode

pub record OpenOptions : Type 0 where
  pub mode : OpenMode
  pub create : Bool
  pub exclusive : Bool
  pub truncate : Bool
  pub append : Bool
  pub sync_all_on_write : Bool

-- `asio::file_base::flags`, with the test that a flag is in a set of flags.
pub data Flag : Type 0 where
  read_only write_only both create_flag exclusive_flag truncate_flag append_flag sync_flag : Flag

pub record AsioFlags (F : Type 0) : Type 0 where
  pub single : Flag → F
  pub union : F → F → F
  pub contains : F → Flag → Bool
  pub contains-union :
      (a b : F) (f : Flag) → contains (union a b) f ≡ (contains a f || contains b f)

module _ {F : Type 0} (asio : AsioFlags F) where
  abbrev pub mode_flag : OpenMode → Option Flag
  mode_flag read = some read_only
  mode_flag write = some write_only
  mode_flag read_write = some both
  mode_flag (other_mode m) = none

  unfoldable pub add_if : Bool → Flag → F → F
  add_if b f flags = if b then asio.union flags (asio.single f) else flags

  -- `into_asio_flags`; `none` is the exception `invalid_argument`.
  unfoldable pub into_asio_flags : OpenOptions → Option F
  into_asio_flags o = elim (mode_flag o.mode) [
    | none ↦ none
    | some f ↦ some (
        add_if o.sync_all_on_write sync_flag (
          add_if o.append append_flag (
            add_if o.truncate truncate_flag
              (add_if o.exclusive exclusive_flag (add_if o.create create_flag (asio.single f))))))
  ]

-- `enum class seek_origin`, and `asio::file_base::seek_basis`.
pub data SeekOrigin : Type 0 where
  begin current end_of_file : SeekOrigin
  other_origin : ℕ → SeekOrigin

pub data SeekBasis : Type 0 where
  seek_set seek_cur seek_end : SeekBasis

-- A file of asio: `asio::stream_file` or `asio::random_access_file`. An offset is its 64-bit pattern.
pub record AsioFile (H : Type 0) : Type 0 where
  pub seek : H → ℕ → SeekBasis → H × Call ℕ
  pub size : H → H × Call ℕ
  pub resize : H → ℕ → H × Call (Unit {0})
  pub sync_data : H → H × Call (Unit {0})
  pub sync_all : H → H × Call (Unit {0})
  pub close : H → H × ℕ

-- The number of the exception `std::invalid_argument`.
abbrev pub invalid_argument : ℕ
invalid_argument = 0

module _ {ℓ} {A : Type ℓ} where
  -- An operation that looks at `ec` only, and drops what the pool says.
  pub unchecked_call : A → Bool → Call A → Reported A
  unchecked_call v off call = elim (awaited off call.end) [
    | rethrown e ↦ thrown e
    | undefined ↦ undefined_read
    | returned status ↦
        if code_after off call.code == 0 then done v else system_error (code_after off call.code)
  ]

  -- The end of `file::open`: the file that was made is taken out of the result with `*`.
  unfoldable pub opened : Resumed A → ℕ → Reported A
  opened (rethrown e) code = thrown e
  opened undefined code = undefined_read
  opened (returned (ok file)) code = if code == 0 then done file else system_error code
  opened (returned (err e)) code = if code == 0 then undefined_read else system_error code

  -- `file::open`, with the flags or their exception, whether the pool gave the closure back, the
  -- runtime of the thread that the closure runs on, and what asio does for that runtime.
  pub open_file : Option ℕ → Bool → Option ℕ → (ℕ → ℕ → Call A) → Reported A
  open_file none off here call = thrown invalid_argument
  open_file (some flags) true here call =
      opened (await_resume (some (mark_cancelled fresh_block))) 0
  open_file (some flags) false none call = undefined_read
  open_file (some flags) false (some rt) call =
      let c = call rt flags in opened (await_resume (some (execute c.end fresh_block))) c.code

  -- `random_access_file::open`
  pub open_random_file : Option ℕ → Bool → Option ℕ → (ℕ → ℕ → Call A) → Reported A
  open_random_file = open_file

-- The closure runs on the file, or does not run.
abbrev pub run_on {ℓ κ} :
    {H : Type 0} {A : Type ℓ} {B : Type κ}
    → Bool
    → (Bool → Call A → B)
    → H
    → (H → H × Call A)
    → H × B
run_on off report h f = (if off then h else (f h).0, report off (f h).1)

module _ {H : Type 0} (asio : AsioFile H) (off : Bool) where
  abbrev pub seek_call : ℕ → SeekOrigin → H → H × Call ℕ
  seek_call offset begin h = asio.seek h offset seek_set
  seek_call offset current h = asio.seek h offset seek_cur
  seek_call offset end_of_file h = asio.seek h offset seek_end
  seek_call offset (other_origin o) h = (h, record { code = 0; end = inr invalid_argument })

  pub seek : H → ℕ → SeekOrigin → H × Reported ℕ
  seek h offset origin = run_on off checked_call h (seek_call offset origin)

  pub position : H → H × Reported ℕ
  position h = seek h 0 current

  pub size : H → H × Reported ℕ
  size h = run_on off checked_call h asio.size

  -- `file::resize`, `file::sync_data` and `file::sync_all`
  pub resize : H → ℕ → H × Reported (Unit {0})
  resize h n = run_on off (unchecked_call tt) h (λ f. asio.resize f n)

  pub sync_data : H → H × Reported (Unit {0})
  sync_data h = run_on off (unchecked_call tt) h asio.sync_data

  pub sync_all : H → H × Reported (Unit {0})
  sync_all h = run_on off (unchecked_call tt) h asio.sync_all

  pub close : H → H × Reported (Unit {0})
  close h = let (h', code) = asio.close h in (h', if code == 0 then done tt else system_error code)

  -- `random_access_file`
  pub resize_random : H → ℕ → H × Reported (Unit {0})
  resize_random h n = run_on off checked_call h (λ f. asio.resize f n)

  pub sync_data_random : H → H × Reported (Unit {0})
  sync_data_random h = run_on off checked_call h asio.sync_data

  pub sync_all_random : H → H × Reported (Unit {0})
  sync_all_random h = run_on off checked_call h asio.sync_all

  pub size_random : H → H × Reported ℕ
  size_random h = run_on off checked_call h asio.size

  pub close_random : H → H × Reported (Unit {0})
  close_random h =
      let (h', code) = asio.close h in (h', if code == 0 then done tt else system_error code)
