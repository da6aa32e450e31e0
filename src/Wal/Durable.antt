-- ===== src/Wal/Durable.antt =====
-- The update that an idle manager prepares, and what is on disk (storage/wal.rs).
use moonlink.Base.{ℕ, Bool, true, Option, none, some, leb}
use moonlink.Wal.Manager.{WalFileInfo}

-- Which of the live files stay, given the lowest one kept.
abbrev keep_from : Option ℕ → WalFileInfo → Bool
keep_from none file = true
keep_from (some lowest) file = leb lowest file.file_number
