-- ===== src/FileMerge.antt =====
-- largefilemerge.c: three files are read and written to one through a ring of the kernel. What the
-- calls return is given to the run, and so is the result that the kernel puts into the completion
-- of an operation. Operations that are submitted may complete in any order.
pub mod Counts
pub mod Merged
mod Tests
use leetcode.Base.{
  ℕ, zero, suc, ◌+◌, ◌≡◌, Bool, true, false, Option, none, some, List, [], ◌∷◌, ◌++◌, if◌then◌else◌,
}
use leetcode.Base.Int.{ℤ, pos, negsuc}
use leetcode.Base.Fallible.{◌>>=◌}

abbrev pub max_files : ℕ
max_files = 3

-- An entry of the ring with its context, the number of a file: a read into its buffer, of at most
-- BUF_SIZE bytes, or a write of the first `nbytes` bytes of its buffer.
pub data Op : Type 0 where
  read_op : (ctx : ℕ) → Op
  write_op : (ctx nbytes : ℕ) → Op

abbrev pub get_data : Op → ℕ
get_data (read_op ctx) = ctx
get_data (write_op ctx nbytes) = ctx

-- The operations that have not completed, and in order those that io_uring_wait_cqe has given, the
-- writes that were submitted, and the files for which a failure was printed.
pub record Ring : Type 0 where
  pub pending : List Op
  pub completed : List Op
  pub writes : List Op
  pub failures : List ℕ

-- One operation of a list, and the others.
pub data Takes (op : Op) : List Op → List Op → Type 0 where
  first : {ops : List Op} → Takes op (op ∷ ops) ops
  later : {o : Op} {ops rest : List Op} → Takes op ops rest → Takes op (o ∷ ops) (o ∷ rest)

-- A round of the loop over completions, on the completion of `op` with the result `res`.
unfoldable pub handle : (op : Op) → (res : ℤ) → (pending : List Op) → Ring → Ring
handle op (negsuc n) pending r = record r {
  pending = pending;
  completed = r.completed ++ (op ∷ []);
  failures = r.failures ++ (get_data op ∷ []);
}
handle op (pos zero) pending r = record r {
  pending = pending;
  completed = r.completed ++ (op ∷ []);
}
handle op (pos (suc n)) pending r =
    let write = write_op (get_data op) (suc n) in
    record r {
      pending = pending ++ (write ∷ []);
      completed = r.completed ++ (op ∷ []);
      writes = r.writes ++ (write ∷ []);
    }

-- So many rounds, each with an operation that is pending.
pub data Rounds (cqe_res : Op → ℤ) (start : Ring) : (n : ℕ) → Ring → Type 0 where
  none_yet : Rounds cqe_res start 0 start
  round :
      {n : ℕ} {r : Ring} {op : Op} {rest : List Op}
      → Rounds cqe_res start n r
      → Takes op r.pending rest
      → Rounds cqe_res start (suc n) (handle op (cqe_res op) rest r)

pub record Calls : Type 0 where
  pub opens_output : Bool
  pub opens_input : ℕ → Bool
  pub mallocs : ℕ → Bool

-- The first loop, from file i on: the reads that it submits.
unfoldable pub submit_reads : Calls → (rounds i : ℕ) → Option (List Op)
submit_reads c zero i = some []
submit_reads c (suc rounds) i =
    let rest = submit_reads c rounds (i + 1) in
    if c.opens_input i
    then (if c.mallocs i then (do ops ← rest; some (read_op i ∷ ops)) else none)
    else none

abbrev pub submitted : List Op → Ring
submitted ops = record { pending = ops; completed = []; writes = []; failures = [] }

-- main returns 1, or 0 with the ring at the end of the loop.
pub data Outcome : Type 0 where
  returns_1 : Outcome
  returns_0 : Ring → Outcome

pub data Main (c : Calls) (cqe_res : Op → ℤ) : Outcome → Type 0 where
  no_output : c.opens_output ≡ false → Main c cqe_res returns_1
  no_input : c.opens_output ≡ true → submit_reads c max_files 0 ≡ none → Main c cqe_res returns_1
  merged :
      {ops : List Op} {r : Ring}
      → c.opens_output ≡ true
      → submit_reads c max_files 0 ≡ some ops
      → Rounds cqe_res (submitted ops) max_files r
      → Main c cqe_res (returns_0 r)
