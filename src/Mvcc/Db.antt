-- ===== src/Mvcc/Db.antt =====
-- transaction_mvcc.c: what the loops over `db` do to the versions of each key.
use leetcode.Base.{
  ℕ, ◌≡◌, refl, inl, inr, none, some, List, [], ◌∷◌, arith, if◌then◌else◌, Option-cases, CString,
  str_eq, str_eq_comm, str_eq_trans,
}
use leetcode.Mvcc.{
  Version, KvPair, State, find_versions, add_version, map_versions, latest, mvcc_read,
}

-- The versions of a key, none for a key that is not stored.
unfoldable pub versions_of : CString → List KvPair → List Version
versions_of k [] = []
versions_of k (p ∷ ps) = if str_eq p.key k then p.versions else versions_of k ps

versions_of_found :
    (k : CString) (ps : List KvPair) (vs : List Version)
    → find_versions k ps ≡ some vs
    → versions_of k ps ≡ vs
unfolding versions_of find_versions
versions_of_found k [] vs e = cc
versions_of_found k (p ∷ ps) vs e = ground (arith, versions_of_found k ps vs)

versions_of_missing :
    (k : CString) (ps : List KvPair) → find_versions k ps ≡ none → versions_of k ps ≡ []
unfolding versions_of find_versions
versions_of_missing k [] e = refl
versions_of_missing k (p ∷ ps) e = ground (arith, versions_of_missing k ps)

pub mvcc_read_lem :
    (s : State) (i : ℕ) (k : CString)
    → mvcc_read s i k ≡ latest (s.transactions i) (versions_of k s.db)
unfolding mvcc_read latest
mvcc_read_lem s i k = elim (Option-cases (find_versions k s.db)) [
  | inl e ↦ rw (e, mvcc_read) (rw (versions_of_missing k s.db e))
  | inr (vs, e) ↦ rw (e, mvcc_read) (rw (versions_of_found k s.db vs e))
]

pub versions_of-add_version :
    (j k : CString) (v : Version) (ps : List KvPair)
    → versions_of j (add_version k v ps)
      ≡ (if str_eq k j then v ∷ versions_of j ps else versions_of j ps)
unfolding versions_of add_version
versions_of-add_version j k v [] = refl
versions_of-add_version j k v (p ∷ ps) = ground (
  arith,
  str_eq_trans p.key k j,
  str_eq_trans k j p.key,
  str_eq_comm k p.key,
  str_eq_comm j p.key,
  versions_of-add_version j k v ps,
)

pub versions_of-map_versions :
    (f : List Version → List Version) (k : CString) (ps : List KvPair)
    → f [] ≡ []
    → versions_of k (map_versions f ps) ≡ f (versions_of k ps)
unfolding versions_of map_versions
versions_of-map_versions f k [] h = cc
versions_of-map_versions f k (p ∷ ps) h = ground (arith, versions_of-map_versions f k ps h)
