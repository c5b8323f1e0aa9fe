-- ===== src/Lru/Tests.antt =====
-- 146.c: the calls of the problem's example.
use leetcode.Base.{◌≡◌, refl, some, List, [], ◌∷◌, arith}
use leetcode.Base.Int.{pos, negsuc}
use leetcode.Lru.{lru_cache_create}
use leetcode.Lru.Refinement.{Call, run, run_entries, run-entries}
use leetcode.Lru.Entries.{lookup, erase, drop_last, get_entry, put_entry}

abbrev calls : List Call
calls =
    Call.put 1 (pos 10)
    ∷ Call.put 2 (pos 20)
    ∷ Call.get 1
    ∷ Call.put 3 (pos 30)
    ∷ Call.get 2
    ∷ Call.put 4 (pos 40)
    ∷ Call.get 1
    ∷ Call.get 3
    ∷ Call.get 4
    ∷ []

list_results : run_entries 2 calls [] ≡ pos 10 ∷ negsuc 0 ∷ negsuc 0 ∷ pos 30 ∷ pos 40 ∷ []
unfolding run_entries get_entry put_entry lookup erase drop_last
list_results = refl

run-entries_example : run calls (lru_cache_create 2) ≡ some (run_entries 2 calls [])
run-entries_example = run-entries 2 calls (omega arith)
