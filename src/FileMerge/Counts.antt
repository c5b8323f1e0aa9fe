-- ===== src/FileMerge/Counts.antt =====
-- largefilemerge.c: how the rounds change the numbers of operations.
use leetcode.Base.{
  ℕ, zero, suc, ◌+◌, ◌≤◌, ◌≡◌, refl, ap, ◌∙◌, Bool, true, false, Bool-cases, inl, inr, List, [],
  ◌∷◌, ◌++◌, arith, ◌==◌, length, length-append, All, ◌&&◌, if◌then◌else◌,
}
use leetcode.Base.Int.{ℤ, pos, negsuc}
use leetcode.FileMerge.{
  Op, read_op, write_op, get_data, Ring, Takes, first, later, handle, Rounds, none_yet, round,
  submitted,
}

unfoldable pub count : (Op → Bool) → List Op → ℕ
count p [] = 0
count p (op ∷ ops) = (if p op then 1 else 0) + count p ops

abbrev pub is_read : Op → Bool
is_read (read_op ctx) = true
is_read (write_op ctx nbytes) = false

abbrev pub is_read_of : ℕ → Op → Bool
is_read_of i (read_op ctx) = ctx == i
is_read_of i (write_op ctx nbytes) = false

abbrev pub is_write_of : ℕ → Op → Bool
is_write_of i (read_op ctx) = false
is_write_of i (write_op ctx nbytes) = ctx == i

-- The completion of an operation on file i has bytes.
abbrev pub positive : ℤ → Bool
positive (negsuc n) = false
positive (pos zero) = false
positive (pos (suc n)) = true

count-append : (p : Op → Bool) (xs ys : List Op) → count p (xs ++ ys) ≡ count p xs + count p ys
unfolding count
count-append p [] ys = omega arith
count-append p (x ∷ xs) ys = omega (arith, count-append p xs ys)

count-Takes :
    (p : Op → Bool) (op : Op) (ops rest : List Op)
    → Takes op ops rest
    → count p ops ≡ count p rest + (if p op then 1 else 0)
unfolding count
count-Takes p op _ _ (first {ops}) = omega arith
count-Takes p op _ _ (later {o} {ops} {rest} t) = omega (arith, count-Takes p op ops rest t)

count_one : (p : Op → Bool) (op : Op) → count p (op ∷ []) ≡ (if p op then 1 else 0)
unfolding count
count_one p op = omega arith

pub count_le :
    (p q : Op → Bool) (ops : List Op)
    → ((op : Op) → p op ≡ true → q op ≡ true)
    → count p ops ≤ count q ops
unfolding count
count_le p q [] h = omega arith
count_le p q (op ∷ ops) h = ground (arith, count_le p q ops h, h op)

pub count-all :
    (p : Op → Bool) (ops : List Op) → All (λ op. p op ≡ true) ops → count p ops ≡ length ops
unfolding count
count-all p [] a = refl
count-all p (op ∷ ops) a = ground (arith, count-all p ops a.1, a.0)

-- A round takes a read from those that are pending, and adds none.
module _ (p : Op → Bool) (reads : (ctx n : ℕ) → p (write_op ctx n) ≡ false) where
  handle_reads :
      (op : Op) (res : ℤ) (rest : List Op) (r : Ring)
      → let s = handle op res rest r in
        count p s.completed + count p s.pending
        ≡ count p r.completed + (if p op then 1 else 0) + count p rest
  unfolding handle
  handle_reads op (negsuc n) rest r =
      omega (arith, count-append p r.completed (op ∷ []), count_one p op)
  handle_reads op (pos zero) rest r =
      omega (arith, count-append p r.completed (op ∷ []), count_one p op)
  handle_reads op (pos (suc n)) rest r =
      let write = write_op (get_data op) (suc n) in
      ground (
        arith,
        count-append p r.completed (op ∷ []),
        count_one p op,
        count-append p rest (write ∷ []),
        count_one p write,
        reads (get_data op) (suc n),
      )

  -- Each read that was submitted has completed or is pending.
  pub reads_kept :
      (cqe_res : Op → ℤ) (ops : List Op) (n : ℕ) (r : Ring)
      → Rounds cqe_res (submitted ops) n r
      → count p r.completed + count p r.pending ≡ count p ops
  unfolding count
  reads_kept cqe_res ops _ _ none_yet = omega arith
  reads_kept cqe_res ops _ _ (round {n} {r} {op} {rest} before t) = omega (
    arith,
    reads_kept cqe_res ops n r before,
    handle_reads op (cqe_res op) rest r,
    count-Takes p op r.pending rest t,
  )

length-handle :
    (op : Op) (res : ℤ) (rest : List Op) (r : Ring)
    → length (handle op res rest r).completed ≡ length r.completed + 1
unfolding handle
length-handle op (negsuc n) rest r = length-append r.completed (op ∷ [])
length-handle op (pos zero) rest r = length-append r.completed (op ∷ [])
length-handle op (pos (suc n)) rest r = length-append r.completed (op ∷ [])

pub length-completed :
    (cqe_res : Op → ℤ) (ops : List Op) (n : ℕ) (r : Ring)
    → Rounds cqe_res (submitted ops) n r
    → length r.completed ≡ n
length-completed cqe_res ops _ _ none_yet = refl
length-completed cqe_res ops _ _ (round {n} {r} {op} {rest} before t) =
    length-handle op (cqe_res op) rest r ∙ omega (arith, length-completed cqe_res ops n r before)

-- A completion with bytes of file i.
abbrev has_bytes : (Op → ℤ) → ℕ → Op → Bool
has_bytes cqe_res i op = (get_data op == i) && positive (cqe_res op)

handle_writes :
    (i : ℕ) (op : Op) (res : ℤ) (rest : List Op) (r : Ring)
    → count (is_write_of i) (handle op res rest r).writes
      ≡ count (is_write_of i) r.writes + (if (get_data op == i) && positive res then 1 else 0)
unfolding handle
handle_writes i op (negsuc n) rest r = ground arith
handle_writes i op (pos zero) rest r = ground arith
handle_writes i op (pos (suc n)) rest r =
    let write = write_op (get_data op) (suc n) in
    ground
      (arith, count-append (is_write_of i) r.writes (write ∷ []), count_one (is_write_of i) write)

handle-completed :
    (p : Op → Bool) (op : Op) (res : ℤ) (rest : List Op) (r : Ring)
    → count p (handle op res rest r).completed ≡ count p r.completed + (if p op then 1 else 0)
unfolding handle
handle-completed p op (negsuc n) rest r =
    omega (arith, count-append p r.completed (op ∷ []), count_one p op)
handle-completed p op (pos zero) rest r =
    omega (arith, count-append p r.completed (op ∷ []), count_one p op)
handle-completed p op (pos (suc n)) rest r =
    omega (arith, count-append p r.completed (op ∷ []), count_one p op)

-- A write of a file is submitted for each completion with bytes of it.
pub writes_counted :
    (cqe_res : Op → ℤ) (ops : List Op) (n : ℕ) (r : Ring) (i : ℕ)
    → Rounds cqe_res (submitted ops) n r
    → count (is_write_of i) r.writes ≡ count (has_bytes cqe_res i) r.completed
unfolding count
writes_counted cqe_res ops _ _ i none_yet = refl
writes_counted cqe_res ops _ _ i (round {n} {r} {op} {rest} before t) = omega (
  arith,
  writes_counted cqe_res ops n r i before,
  handle_writes i op (cqe_res op) rest r,
  handle-completed (has_bytes cqe_res i) op (cqe_res op) rest r,
)

pub reads_with_bytes :
    (cqe_res : Op → ℤ) (i : ℕ) (ops : List Op)
    → All (λ op. is_read op ≡ true) ops
    → count (has_bytes cqe_res i) ops
      ≡ (if positive (cqe_res (read_op i)) then count (is_read_of i) ops else 0)
unfolding count
reads_with_bytes cqe_res i [] a = ground arith
reads_with_bytes cqe_res i (write_op ctx n ∷ ops) a = absurd (ground (arith, a.0))
reads_with_bytes cqe_res i (read_op ctx ∷ ops) a = elim (Bool-cases (ctx == i)) [
  | inl e ↦
      (let f : ctx ≡ i = ground (arith, e) in
        ground (
          arith,
          e,
          reads_with_bytes cqe_res i ops a.1,
          ap (λ j. positive (cqe_res (read_op j))) f,
        ))
  | inr e ↦ ground (arith, e, reads_with_bytes cqe_res i ops a.1)
]
