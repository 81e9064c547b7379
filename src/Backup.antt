-- ===== src/Backup.antt =====
-- The backup logger of src/mp_logger_streams.c: a file for the logger's own warnings and errors.
pub mod Line
use mp_logger.Common.{
  ◌-◌, Bool, true, false, List, [], ◌∷◌, ◌++◌, ℕ, Option, none, some, Bytes, codes, if◌then◌else◌,
  take,
}
use mp_logger.Common.Int.{ℤ}
use mp_logger.Text.{copy_trimmed, sanitize_file_component}
use mp_logger.Status.{Status, status_ok, io_error}
use mp_logger.Config.{name_capacity, path_capacity}
use mp_logger.Logger.{Logger}
use mp_logger.Render.Number.{Printer, format_timestamp}
use mp_logger.Files.{Directory, ensure_directory, make_stream_path}

-- The arguments of a call of `mp_logger_backup_write`.
pub record Notice : Type 0 where
  pub severity : Bytes
  pub notice : Bytes

-- The path of the backup file, and of the primary one, with the prefix made safe once more.
unfoldable pub log_path : Bytes → Bytes → Bytes → Option Bytes
log_path directory prefix run_suffix =
    make_stream_path path_capacity directory
      (sanitize_file_component (copy_trimmed name_capacity prefix)) run_suffix

-- `open` answers a descriptor or fails.
unfoldable pub backup_open : Directory → (Bytes → Option ℕ) → Logger → Status × Logger
backup_open answers open_file l =
    if ensure_directory answers l.config.log_directory
    then elim (log_path l.config.log_directory l.config.backup_file_name_prefix l.run_suffix) [
      | none ↦ (io_error, record l { backup_path = codes "" })
      | some path ↦ elim (open_file path) [
        | none ↦ (io_error, record l { backup_path = path; backup_fd = none })
        | some fd ↦ (status_ok, record l { backup_path = path; backup_fd = some fd })
      ]
    ]
    else (io_error, l)

-- The descriptors that are closed, and the logger afterwards.
unfoldable pub backup_close : Logger → List ℕ × Logger
backup_close l = elim l.backup_fd [
  | none ↦ ([], l)
  | some fd ↦ (fd ∷ [], record l { backup_fd = none })
]

abbrev pub backup_line_capacity : ℕ
backup_line_capacity = 512

-- The text that `snprintf` is asked for, and what the array holds of it.
unfoldable pub backup_text : Printer → ℤ → Notice → Bytes
backup_text printer now n =
    format_timestamp printer now
    ++ codes " level="
    ++ n.severity
    ++ codes " subsystem="
    ++ codes "mp_logger"
    ++ codes " message=\""
    ++ n.notice
    ++ codes "\"\n"

unfoldable pub backup_line : Printer → ℤ → Notice → Bytes
backup_line printer now n = take (backup_line_capacity - 1) (backup_text printer now n)

-- The `write` that is made: the descriptor and the bytes.
unfoldable pub backup_write : Printer → ℤ → Logger → Notice → Option (ℕ × Bytes)
backup_write printer now l n = elim l.backup_fd [
  | none ↦ none
  | some fd ↦ some (fd, backup_line printer now n)
]
