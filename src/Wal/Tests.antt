-- ===== src/Wal/Tests.antt =====
-- Wal.c: a log of two transactions, and one that a crash cut short.
use leetcode.Base.{
  arith, take, none, false, length, decimal, decimal_from, ◌≡◌, refl, some, [], ◌∷◌, ◌++◌,
}
use leetcode.Wal.Commands.{main, text_crash, text_recover}
use leetcode.Wal.Durability.{crash_then_recover}
use leetcode.Wal.{
  lose_power, write_transaction, append_file, fgets, push_byte, Disk, recover, transaction_line,
  set_line, text_begin,
}
use leetcode.Wal.Recovery.{Write, set_lines, log_of, empty_disk, recover_uncommitted}

decimal_of_120 : decimal 120 ≡ b'1' ∷ b'2' ∷ b'0' ∷ []
unfolding decimal decimal_from
decimal_of_120 = refl

abbrev one : Write
one = (b'a' ∷ [], b'1' ∷ [])

abbrev two : Write
two = (b'b' ∷ [], b'2' ∷ [])

abbrev crashed : Disk
crashed = record {
  durable = none;
  wal = some (log_of 1 (one ∷ []) ++ transaction_line 2 text_begin ∷ set_lines (two ∷ []));
  db = [];
  transaction_id = 2;
}

recover_uncommitted_example :
    recover crashed
    ≡ some (record crashed { db = [] ++ (set_lines (one ∷ []) ++ set_lines (two ∷ [])) })
recover_uncommitted_example = recover_uncommitted crashed 1 2 (one ∷ []) (two ∷ []) refl

crash_then_recover_example :
    let e = main empty_disk (text_crash ∷ one.0 ∷ one.1 ∷ []) in
    (e.status ≡ 1)
    × (main (lose_power e.files) (text_recover ∷ []) ≡ record {
      files = record (lose_power e.files) { db = [] ++ (take 255 (set_line one.0 one.1) ∷ []) };
      status = 0;
    })
crash_then_recover_example =
    crash_then_recover empty_disk one.0 one.1 refl refl (ground arith) (ground arith)

-- Without fsync nothing is left of the log.
lost : (lose_power (write_transaction empty_disk one.0 one.1 false)).wal ≡ none
unfolding lose_power write_transaction append_file
lost = refl

-- A line that fills the buffer is read with its newline left over.
filled_buffer : length (fgets 3 (b'a' ∷ b'b' ∷ b'c' ∷ [])) ≡ 2
unfolding fgets push_byte
filled_buffer = refl
