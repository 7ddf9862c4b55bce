-- ===== src/Platform/Io.antt =====
-- `std::io::Error` and `rustix::io::Errno`.
use epitelesis.Base.{ℕ, String, Option, Bool, true, false, none}
use epitelesis.Platform.Result.{Result}

-- The kinds that the crate names; the others are told apart by a number.
pub data ErrorKind : Type 0 where
  interrupted would_block broken_pipe other_kind : ErrorKind
  another_kind : ℕ → ErrorKind

pub record IoError : Type 0 where
  pub kind : ErrorKind
  pub raw_os_error : Option ℕ
  pub message : String

abbrev pub IoResult : Type 0 → Type 0
IoResult A = Result A IoError

-- `io::Error::new` and `io::Error::other`.
abbrev pub new_error : ErrorKind → String → IoError
new_error k m = record { kind = k; raw_os_error = none; message = m }

abbrev pub other_error : String → IoError
other_error m = new_error other_kind m

abbrev pub is_interrupted : ErrorKind → Bool
is_interrupted interrupted = true
is_interrupted _ = false

abbrev pub is_would_block : ErrorKind → Bool
is_would_block would_block = true
is_would_block _ = false
