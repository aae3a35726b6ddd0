-- ===== src/Cli/Host.antt =====
-- What fat32/src/main.rs has around it: the files of the host, which are a parameter, and what it
-- prints, a constructor for each message, on either stream.
use the_heap.Prelude.{ℕ, Bool, Option, List, ◌⊎◌}
use the_heap.Bytes.{slice}
use the_heap.Fat32.Error.{FatError}
use the_heap.Fat32.Text.{Text}
use the_heap.Fat32.Volume.{Disk}

-- `std::fs::read` and `std::fs::write`. A write that fails may have changed the file.
pub record HostFs : Type 1 where
  pub World : Type 0
  pub IoError : Type 0
  pub read : World → Text → IoError ⊎ Disk
  pub write : World → Text → Disk → World × Option IoError

-- The bytes of a `Vec<u8>`.
abbrev pub bytes_of : Disk → List ℕ
bytes_of d = slice d.byte 0 d.len

pub data Output (IoError : Type 0) : Type 0 where
  usage : Output IoError
  shell_help : Output IoError
  banner : Output IoError
  prompt : Text → Output IoError
  unknown_argument : Text → Output IoError
  unknown_command : Text → Output IoError
  cannot_read : Text → IoError → Output IoError
  cannot_write : Text → IoError → Output IoError
  fat_error : FatError → Output IoError
  listing_of : Text → Output IoError
  row : Bool → Text → ℕ → Output IoError
  ls_error : Text → FatError → Output IoError
  contents : List ℕ → Output IoError
  file_not_found : Text → Output IoError
  cat_error : Text → FatError → Output IoError
  cat_usage : Output IoError
  cat_needs_path : Output IoError
  directory : Text → Output IoError
  is_no_directory : Text → Output IoError
  directory_not_found : Text → Output IoError
  cd_error : Text → FatError → Output IoError
  put_usage : Output IoError
  put_needs_path : Output IoError
  put_needs_source : Output IoError
  put_error : Text → FatError → Output IoError
  put_ok : Text → Text → Output IoError
