-- ===== src/ConcurrentMap/Tests.antt =====
-- COCURRENTHASHMAP.c: the hash function, and the theorems at a map of two buckets.
use leetcode.Base.{
  str_eq, update, ◌+◌, ◌<◌, some, zero, suc, ℕ, ◌≡◌, refl, List, [], ◌∷◌, arith, CString,
}
use leetcode.ConcurrentMap.{
  ConcurrentHashMap, hash_str, map_create, map_get, map_insert, chain_get, bucket, slot,
  with_bucket, chain_remove,
}
use leetcode.ConcurrentMap.Main.{
  num_threads, val_of, ended, System, Reach, here, next, insert_val, get_val, start, key_of,
  inserted, IsJoined, freed_by_main,
}
use leetcode.ConcurrentMap.Freed.{workers_freed}
use leetcode.ConcurrentMap.Destroy.{total}
use leetcode.ConcurrentMap.Dictionary.{
  create-IsValid, Call, insert, get, remove, results, dictionary_results, results-dictionary,
}

abbrev key_1 : CString
key_1 = b'k' ∷ b'1' ∷ []

abbrev key_2 : CString
key_2 = b'k' ∷ b'2' ∷ []

hash_of_key : hash_str key_1 ≡ 5863489
unfolding hash_str
hash_of_key = refl

abbrev fresh : ConcurrentHashMap ℕ
fresh = map_create 2

abbrev calls : List (Call ℕ)
calls = insert key_1 100 ∷ insert key_2 200 ∷ get key_2 ∷ remove key_2 ∷ get key_2 ∷ []

results-dictionary_example : results fresh calls ≡ dictionary_results (map_get fresh) calls
results-dictionary_example = results-dictionary fresh calls (create-IsValid 2 (omega arith))

-- A run of the four workers.
abbrev do_insert : System → ℕ → System
do_insert s id = record s {
  map = (map_insert s.map (key_of id) (val_of id)).1;
  stage = update s.stage id inserted;
}

abbrev do_get : System → ℕ → System
do_get s id = record s { stage = update s.stage id (ended (map_get s.map (key_of id))) }

abbrev first_half : System
first_half = do_insert (do_insert (do_get (do_insert start 0) 0) 1) 3

abbrev all_ended : System
all_ended = do_get (do_get (do_insert (do_get first_half 3) 2) 1) 2

reached_half : Reach first_half
reached_half =
    next
      (next (next (next here (insert_val 0 (omega arith) refl)) (get_val 0 (omega arith) refl))
        (insert_val 1 (omega arith) refl))
      (insert_val 3 (omega arith) refl)

reached : Reach all_ended
reached =
    next
      (next
        (next (next reached_half (get_val 3 (omega arith) refl)) (insert_val 2 (omega arith) refl))
        (get_val 1 (omega arith) refl))
      (get_val 2 (omega arith) refl)

joined : IsJoined all_ended
joined zero l = (_, refl)
joined (suc zero) l = (_, refl)
joined (suc (suc zero)) l = (_, refl)
joined (suc (suc (suc zero))) l = (_, refl)
joined (suc (suc (suc (suc i)))) l = absurd (omega (arith, l))

workers_freed_example :
    ((id : ℕ) → id < num_threads → all_ended.stage id ≡ ended (some (val_of id)))
    × (total (λ v. v) (freed_by_main all_ended.map) ≡ 100 + 200 + 300 + 400)
workers_freed_example = workers_freed (λ v. v) reached joined

removed_first : freed_by_main all_ended.map ≡ 200 ∷ 100 ∷ 300 ∷ 400 ∷ []
unfolding freed_by_main map_insert map_create chain_get bucket slot hash_str with_bucket str_eq
    chain_remove
removed_first = refl
