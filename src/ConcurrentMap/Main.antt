-- ===== src/ConcurrentMap/Main.antt =====
-- COCURRENTHASHMAP.c: worker and main, in any interleaving of the calls of the threads.
use leetcode.Base.{
  ℕ, ◌+◌, ◌*◌, ◌<◌, ◌≡◌, true, Option, none, some, List, ◌∷◌, CString, decimal, update,
}
use leetcode.ConcurrentMap.{
  ConcurrentHashMap, map_create, map_insert, map_get, map_remove, map_destroy,
}

abbrev pub num_threads : ℕ
num_threads = 4

-- args[id].tid, and the key and the number that its worker makes of it. Each number stands for the
-- int that is allocated for it.
abbrev pub tid : ℕ → ℕ
tid id = id + 1

unfoldable pub key_of : (id : ℕ) → CString
unfolding decimal
key_of id = b'k' ∷ b'e' ∷ b'y' ∷ b'-' ∷ decimal (tid id)

abbrev pub val_of : (id : ℕ) → ℕ
val_of id = tid id * 100

-- Where a worker is, and what map_get gave it.
pub data Stage : Type 0 where
  created : Stage
  inserted : Stage
  ended : (got : Option ℕ) → Stage

pub record System : Type 0 where
  pub map : ConcurrentHashMap ℕ
  pub stage : ℕ → Stage

abbrev pub start : System
start = record { map = map_create 64; stage = λ id. created }

-- A call of a worker.
pub data Step (s : System) : System → Type 0 where
  insert_val :
      (id : ℕ)
      → id < num_threads
      → s.stage id ≡ created
      → Step s (record s {
        map = (map_insert s.map (key_of id) (val_of id)).1;
        stage = update s.stage id inserted;
      })
  get_val :
      (id : ℕ)
      → id < num_threads
      → s.stage id ≡ inserted
      → Step s (record s { stage = update s.stage id (ended (map_get s.map (key_of id))) })

pub data Reach : System → Type 0 where
  here : Reach start
  next : {s t : System} → Reach s → Step s t → Reach t

-- pthread_join returns for every thread.
abbrev pub IsJoined : System → Type 0
IsJoined s = (id : ℕ) → id < num_threads → (got : Option ℕ) × (s.stage id ≡ ended got)

-- `if (removed)`: what is freed before the rest.
unfoldable pub free_removed : Option ℕ → (rest : List ℕ) → List ℕ
free_removed none rest = rest
free_removed (some v) rest = v ∷ rest

-- main after the joins: the numbers that are freed, in order.
unfoldable pub freed_by_main : ConcurrentHashMap ℕ → List ℕ
unfolding map_remove map_destroy key_of free_removed
freed_by_main m =
    let (removed, m) = map_remove m (key_of 1) in free_removed removed (map_destroy m true)
