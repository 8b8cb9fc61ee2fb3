-- ===== src/Filesystem/Examples.antt =====
-- Examples: a call that fails, flags as their membership tests, and a file that is its size.
use coasio.Common.{ℕ, ◌≡◌, refl, true, false, Bool, ◌||◌, some, inl, ◌==◌}
use coasio.Error.{cancelled}
use coasio.Filesystem.{Call, done, system_error, coasio_error, checked_call}
use coasio.Filesystem.Reports.{checked_call_lem}
use coasio.Filesystem.File.{
  OpenMode, OpenOptions, Flag, write_only, create_flag, exclusive_flag, truncate_flag, append_flag,
  sync_flag, AsioFlags, into_asio_flags, begin, AsioFile, open_file, open_random_file, seek, size,
  resize, sync_data, sync_all, resize_random, sync_data_random, sync_all_random,
}
use coasio.Filesystem.File
use coasio.Filesystem.File.Opened.{cancelled_on_file}

abbrev failed_call : Call ℕ
failed_call = record { code = 2; end = inl 0 }

checked_call_lem_run : checked_call false failed_call ≡ system_error 2
checked_call_lem_run = checked_call_lem false failed_call

abbrev number : Flag → ℕ
number File.read_only = 0
number File.write_only = 1
number File.both = 2
number File.create_flag = 3
number File.exclusive_flag = 4
number File.truncate_flag = 5
number File.append_flag = 6
number File.sync_flag = 7

abbrev flag_sets : AsioFlags (Flag → Bool)
flag_sets = record {
  single = λ f g. number f == number g;
  union = λ a b g. a g || b g;
  contains = λ a g. a g;
  contains-union = λ a b g. refl;
}

abbrev options : OpenOptions
options = record {
  mode = OpenMode.write;
  create = true;
  exclusive = false;
  truncate = true;
  append = false;
  sync_all_on_write = false;
}

abbrev opened : Flag → Bool
opened g = ((number write_only == number g) || (3 == number g)) || (5 == number g)

made : into_asio_flags flag_sets options ≡ some opened
unfolding into_asio_flags File.add_if
made = refl

abbrev quiet_end : Call (Unit {0})
quiet_end = record { code = 0; end = inl tt }

abbrev sized_file : AsioFile ℕ
sized_file = record {
  seek = λ h n b. (h, record { code = 0; end = inl n });
  size = λ h. (h, record { code = 0; end = inl h });
  resize = λ h n. (n, quiet_end);
  sync_data = λ h. (h, quiet_end);
  sync_all = λ h. (h, quiet_end);
  close = λ h. (h, 0);
}

cancelled_on_file_run :
    (size sized_file true 40 ≡ (40, coasio_error cancelled))
    × (seek sized_file true 40 5 begin ≡ (40, coasio_error cancelled))
    × (resize_random sized_file true 40 5 ≡ (40, coasio_error cancelled))
    × (sync_data_random sized_file true 40 ≡ (40, coasio_error cancelled))
    × (sync_all_random sized_file true 40 ≡ (40, coasio_error cancelled))
    × (resize sized_file true 40 5 ≡ (40, done tt))
    × (sync_data sized_file true 40 ≡ (40, done tt))
    × (sync_all sized_file true 40 ≡ (40, done tt))
cancelled_on_file_run = cancelled_on_file sized_file 40 5 begin
