-- ===== src/FileMerge/Tests.antt =====
-- largefilemerge.c: runs on three files of five bytes.
use leetcode.Base.{◌≡◌, refl, arith, true, List, [], ◌∷◌}
use leetcode.Base.Int.{ℤ, pos}
use leetcode.FileMerge.{
  Op, read_op, write_op, Ring, first, handle, Rounds, none_yet, round, Calls, submit_reads,
  submitted, Main, merged, returns_0,
}
use leetcode.FileMerge.Merged.{merged_once, merge_loses}
use leetcode.FileMerge.Counts.{count, is_write_of}

abbrev all_open : Calls
all_open = record { opens_output = true; opens_input = λ i. true; mallocs = λ i. true }

-- Every read gives five bytes, and every write writes all that it is given.
abbrev five_bytes : Op → ℤ
five_bytes (read_op i) = pos 5
five_bytes (write_op i n) = pos n

abbrev reads : List Op
reads = read_op 0 ∷ read_op 1 ∷ read_op 2 ∷ []

-- The reads complete before the writes.
abbrev in_turn : Ring
in_turn = record {
  pending = write_op 0 5 ∷ write_op 1 5 ∷ write_op 2 5 ∷ [];
  completed = reads;
  writes = write_op 0 5 ∷ write_op 1 5 ∷ write_op 2 5 ∷ [];
  failures = [];
}

in_turn-Rounds : Rounds five_bytes (submitted reads) 3 in_turn
unfolding handle
in_turn-Rounds = round (round (round none_yet first) first) first

in_turn-Main : Main all_open five_bytes (returns_0 in_turn)
unfolding submit_reads
in_turn-Main = merged refl refl in_turn-Rounds

merged_once_example : count (is_write_of 1) in_turn.writes ≡ 1
merged_once_example =
    merged_once all_open five_bytes in_turn 1 in_turn-Main (refl, (refl, (refl, tt))) (omega arith)

merge_loses_example :
    (r : Ring) × Main all_open five_bytes (returns_0 r)
    × (r.writes ≡ write_op 0 5 ∷ write_op 0 5 ∷ write_op 0 5 ∷ [])
unfolding submit_reads
merge_loses_example = merge_loses all_open five_bytes 4 refl refl refl refl
