-- ===== src/Lru/Refinement.antt =====
-- 146.c: every run of the cache gives the results of the recency list.
use leetcode.Base.{ℕ, ◌<◌, ◌≡◌, refl, Option, some, List, [], ◌∷◌, arith}
use leetcode.Base.Int.{ℤ}
use leetcode.Base.Fallible.{◌>>=◌}
use leetcode.Lru.{Cache, lru_cache_create, lru_cache_get, lru_cache_put}
use leetcode.Lru.Entries.{Entry, entries, get_entry, put_entry}
use leetcode.Lru.Methods.{Holds, lru_cache_get_lem, lru_cache_put_lem}

pub data Call : Type 0 where
  get : (key : ℕ) → Call
  put : (key : ℕ) (value : ℤ) → Call

-- The results of the calls of lRUCacheGet, if no call touches a node that is not allocated.
unfoldable pub run : List Call → Cache → Option (List ℤ)
run [] c = some []
run (get k ∷ calls) c = do (v, c) ← lru_cache_get c k; vs ← run calls c; some (v ∷ vs)
run (put k v ∷ calls) c = do c ← lru_cache_put c k v; run calls c

unfoldable pub run_entries : (capacity : ℕ) → List Call → List Entry → List ℤ
run_entries n [] l = []
run_entries n (get k ∷ calls) l = (get_entry k l).0 ∷ run_entries n calls (get_entry k l).1
run_entries n (put k v ∷ calls) l = run_entries n calls (put_entry n k v l)

run-Holds :
    (calls : List Call) (n : ℕ) {c : Cache} {l : List Entry}
    → 0 < n
    → Holds n c l
    → run calls c ≡ some (run_entries n calls l)
unfolding run run_entries
run-Holds [] n pos h = refl
run-Holds (get k ∷ calls) n pos h =
    let (c', e, h') = lru_cache_get_lem h k in rw (e, run-Holds calls n pos h') refl
run-Holds (put k v ∷ calls) n pos h =
    let (c', e, h') = lru_cache_put_lem h pos k v in rw e (run-Holds calls n pos h')

create-Holds : (n : ℕ) → Holds n (lru_cache_create n) []
unfolding lru_cache_create entries
create-Holds n = record {
  order = [];
  chain = λ i. [];
  valid = record {
    links = record {
      first = refl;
      final = refl;
      nodup = tt;
      prevs = λ p m. cc;
      nexts = λ p m. cc;
      allocated = λ p m. cc;
    };
    hashed = record {
      chains = λ i. refl;
      nodups = λ i. tt;
      homes = λ i p m. cc;
      same = λ p. refl;
      short = λ i. omega arith;
    };
    distinct = λ p q m n e. cc;
    old = λ p m. cc;
    sized = refl;
    room = omega arith;
  };
  shown = refl;
  bound = refl;
}

-- With a capacity above 0, every run of calls on a new cache returns what the recency list returns,
-- and no call goes through a NULL or freed pointer.
pub run-entries :
    (capacity : ℕ) (calls : List Call)
    → 0 < capacity
    → run calls (lru_cache_create capacity) ≡ some (run_entries capacity calls [])
run-entries n calls pos = run-Holds calls n pos (create-Holds n)
