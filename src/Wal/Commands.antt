-- ===== src/Wal/Commands.antt =====
-- Wal.c: main and the functions behind its commands. Each command is a run of the program, so
-- `transaction_id` is 1 in it and only the files outlast it.
use leetcode.Base.{
  ℕ, ◌&&◌, true, false, Option, none, some, List, [], ◌∷◌, if◌then◌else◌, CString, str_eq, length,
  ◌==◌, get_or,
}
use leetcode.Wal.{Disk, write_transaction, recover}

-- What is left when the program ends: the files, and the value it returns or passes to exit.
pub record Exit : Type 0 where
  pub files : Disk
  pub status : ℕ

-- write_transaction, then exit(1).
unfoldable pub crash_after_wal : Disk → (key value : CString) → Exit
crash_after_wal d key value = record { files = write_transaction d key value true; status = 1 }

abbrev pub text_write_nosync : CString
text_write_nosync =
    b'w' ∷ b'r' ∷ b'i' ∷ b't' ∷ b'e' ∷ 45 ∷ b'n' ∷ b'o' ∷ b's' ∷ b'y' ∷ b'n' ∷ b'c' ∷ []

abbrev pub text_write_sync : CString
text_write_sync = b'w' ∷ b'r' ∷ b'i' ∷ b't' ∷ b'e' ∷ 45 ∷ b's' ∷ b'y' ∷ b'n' ∷ b'c' ∷ []

abbrev pub text_crash : CString
text_crash =
    b'c' ∷ b'r' ∷ b'a' ∷ b's' ∷ b'h' ∷ 45 ∷ b'a' ∷ b'f' ∷ b't' ∷ b'e' ∷ b'r' ∷ 45 ∷ b'w' ∷ b'a'
    ∷ b'l' ∷ []

abbrev pub text_recover : CString
text_recover = b'r' ∷ b'e' ∷ b'c' ∷ b'o' ∷ b'v' ∷ b'e' ∷ b'r' ∷ []

-- recover exits with 1 if there is no log to open.
unfoldable pub recovered : Disk → Option Disk → Exit
recovered d none = record { files = d; status = 1 }
recovered d (some new) = record { files = new; status = 0 }

unfoldable pub run_recover : Disk → Exit
unfolding recovered
run_recover d = recovered d (recover d)

-- main, on the arguments behind the name of the program; `display` and the messages change no file.
unfoldable pub main : Disk → List CString → Exit
main d [] = record { files = d; status = 1 }
main d (command ∷ args) =
    let key = get_or args 0 [] in
    let value = get_or args 1 [] in
    if str_eq command text_write_nosync && length args == 2
    then record { files = write_transaction d key value false; status = 0 }
    else if str_eq command text_write_sync && length args == 2
    then record { files = write_transaction d key value true; status = 0 }
    else if str_eq command text_crash && length args == 2
    then crash_after_wal d key value
    else if str_eq command text_recover
    then run_recover d
    else record { files = d; status = 0 }
