-- ===== src/FileMerge/Merged.antt =====
-- largefilemerge.c: which files are written.
use leetcode.Base.{
  ℕ, suc, ◌<◌, ◌≡◌, refl, ap, ◌∙◌, subst, true, some, List, [], ◌∷◌, arith, All, if◌then◌else◌,
}
use leetcode.Base.Int.{ℤ, pos}
use leetcode.FileMerge.{
  Op, read_op, write_op, Ring, Takes, first, later, handle, Rounds, none_yet, round, Calls,
  submit_reads, submitted, max_files, returns_0, Main, merged,
}
use leetcode.FileMerge.Counts.{
  count, is_read, is_read_of, is_write_of, positive, count_le, count-all, reads_kept,
  length-completed, writes_counted, reads_with_bytes,
}

submitted_reads :
    (c : Calls) (ops : List Op)
    → submit_reads c max_files 0 ≡ some ops
    → ops ≡ read_op 0 ∷ read_op 1 ∷ read_op 2 ∷ []
unfolding submit_reads
submitted_reads c ops e = ground (arith, e)

is_read-is_read_of : (i : ℕ) (op : Op) → is_read_of i op ≡ true → is_read op ≡ true
is_read-is_read_of i (read_op ctx) e = refl
is_read-is_read_of i (write_op ctx n) e = absurd (ground (arith, e))

-- If main returns 0, and the three completions that it waits for are those of its reads, in
-- whatever order, then it submits one write of each of the three files of which bytes were read,
-- and none of the others.
pub merged_once :
    (c : Calls) (cqe_res : Op → ℤ) (r : Ring) (i : ℕ)
    → Main c cqe_res (returns_0 r)
    → All (λ op. is_read op ≡ true) r.completed
    → i < max_files
    → count (is_write_of i) r.writes ≡ (if positive (cqe_res (read_op i)) then 1 else 0)
unfolding count
merged_once c cqe_res r i (merged {ops} o s run) a lt =
    let listed = submitted_reads c ops s in
    let all = reads_kept is_read (λ ctx n. refl) cqe_res ops max_files r run in
    let one = reads_kept (is_read_of i) (λ ctx n. refl) cqe_res ops max_files r run in
    let three : count is_read ops ≡ 3 = ap (count is_read) listed in
    let once : count (is_read_of i) ops ≡ 1 =
      ap (count (is_read_of i)) listed ∙ ground (arith, lt) in
    ground (
      arith,
      all,
      one,
      three,
      once,
      count-all is_read r.completed a,
      length-completed cqe_res ops max_files r run,
      count_le (is_read_of i) is_read r.pending (is_read-is_read_of i),
      writes_counted cqe_res ops max_files r i run,
      reads_with_bytes cqe_res i r.completed a,
    )

round_with :
    (cqe_res : Op → ℤ) (start : Ring) (n : ℕ) (r : Ring) (op : Op) (rest : List Op) (res : ℤ)
    → cqe_res op ≡ res
    → Rounds cqe_res start n r
    → Takes op r.pending rest
    → Rounds cqe_res start (suc n) (handle op res rest r)
round_with cqe_res start n r op rest res e before t =
    subst (λ x. Rounds cqe_res start (suc n) (handle op x rest r)) e (round before t)

-- The completions of writes are waited for in the same loop: if the first file can be read and
-- written, then main may submit three writes of it, none of the second and third file, and return
-- 0, however many bytes were read of these.
pub merge_loses :
    (c : Calls) (cqe_res : Op → ℤ) (n : ℕ)
    → c.opens_output ≡ true
    → submit_reads c max_files 0 ≡ some (read_op 0 ∷ read_op 1 ∷ read_op 2 ∷ [])
    → cqe_res (read_op 0) ≡ pos (suc n)
    → cqe_res (write_op 0 (suc n)) ≡ pos (suc n)
    → (r : Ring) × Main c cqe_res (returns_0 r)
      × (r.writes ≡ write_op 0 (suc n) ∷ write_op 0 (suc n) ∷ write_op 0 (suc n) ∷ [])
unfolding handle
merge_loses c cqe_res n o s e f =
    let w = write_op 0 (suc n) in
    let others = read_op 1 ∷ read_op 2 ∷ [] in
    let start = submitted (read_op 0 ∷ others) in
    let r1 = handle (read_op 0) (pos (suc n)) others start in
    let r2 = handle w (pos (suc n)) others r1 in
    let r3 = handle w (pos (suc n)) others r2 in
    let one = round_with cqe_res start 0 start (read_op 0) others (pos (suc n)) e none_yet first in
    let two = round_with cqe_res start 1 r1 w others (pos (suc n)) f one (later (later first)) in
    let three = round_with cqe_res start 2 r2 w others (pos (suc n)) f two (later (later first)) in
    (r3, merged o s three, refl)
