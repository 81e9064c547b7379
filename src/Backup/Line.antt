-- ===== src/Backup/Line.antt =====
-- The lines of the backup file are whole.
use mp_logger.Common.{ℕ, ◌≤◌, ◌<◌, ◌≡◌, some, arith, length, length-append, length-take, take-all}
use mp_logger.Common.Int.{ℤ}
use mp_logger.Logger.{Logger}
use mp_logger.Render.Number.{Printer, format_timestamp}
use mp_logger.Backup.{Notice, backup_text, backup_line, backup_write}

-- A notice of the logger's own: `WARNING` is the longest severity, and the largest array that a
-- message is written to has 160 bytes.
pub record IsShort (n : Notice) : Type 0 where
  pub severity_short : length n.severity ≤ 7
  pub notice_short : length n.notice < 160

length-format_timestamp : (printer : Printer) (now : ℤ) → length (format_timestamp printer now) ≤ 31
unfolding format_timestamp
length-format_timestamp printer now = omega (arith, length-take {0})

length-backup_text :
    (printer : Printer) (now : ℤ) (n : Notice)
    → IsShort n
    → length (backup_text printer now n) < 512
unfolding backup_text
length-backup_text printer now n h =
    omega (arith, length-append {0}, length-format_timestamp printer now)

-- While the backup file is open, a short notice is written to it as one whole line.
pub backup_write_lem :
    (printer : Printer) (now : ℤ) (l : Logger) (n : Notice) {fd : ℕ}
    → l.backup_fd ≡ some fd
    → IsShort n
    → backup_write printer now l n ≡ some (fd, backup_text printer now n)
unfolding backup_write backup_line
backup_write_lem printer now l n open_ h =
    ground
      (arith, open_, take-all 511 (backup_text printer now n), length-backup_text printer now n h)
