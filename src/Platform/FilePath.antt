-- ===== src/Platform/FilePath.antt =====
-- `std::path::Path` on Unix: `components().count()` and `is_absolute`, over the path's bytes.
use epitelesis.Base.{ℕ, ◌+◌, Bool, false, ◌||◌, List, [], ◌∷◌, if◌then◌else◌, ◌==◌, is_empty}
use epitelesis.Platform.OsString.{OsString}

-- The segments between the `/` bytes; there is always at least one.
cons_first : ℕ → List OsString → List OsString
cons_first c [] = (c ∷ []) ∷ []
cons_first c (s ∷ ss) = (c ∷ s) ∷ ss

segments : OsString → List OsString
unfolding cons_first
segments [] = [] ∷ []
segments (c ∷ cs) = let rest = segments cs in if c == b'/' then [] ∷ rest else cons_first c rest

is_cur_dir : OsString → Bool
is_cur_dir [] = false
is_cur_dir (c ∷ []) = c == b'.'
is_cur_dir (c ∷ d ∷ cs) = false

-- Empty segments and `.` name nothing.
named : List OsString → ℕ
unfolding is_cur_dir
named [] = 0
named (s ∷ ss) = (if is_empty s || is_cur_dir s then 0 else 1) + named ss

-- On Unix a path is absolute if it has a root.
unfoldable pub is_absolute : OsString → Bool
is_absolute [] = false
is_absolute (c ∷ cs) = c == b'/'

-- A leading `.` is a component of a relative path.
leading_cur_dir : List OsString → ℕ
unfolding is_cur_dir
leading_cur_dir [] = 0
leading_cur_dir (s ∷ ss) = if is_cur_dir s then 1 else 0

unfoldable pub component_count : OsString → ℕ
unfolding is_absolute leading_cur_dir named segments
component_count p = (if is_absolute p then 1 else leading_cur_dir (segments p)) + named (segments p)
