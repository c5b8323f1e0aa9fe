-- ===== src/ConcurrentMap/Freed.antt =====
-- COCURRENTHASHMAP.c: what the workers read, and what main frees.
use leetcode.Base.{
  ℕ, zero, suc, ◌+◌, ◌<◌, ◌≡◌, ◌≢◌, refl, sym, ap, ◌∙◌, Bool, true, false, inl, inr, Bool-cases,
  Option, none, some, arith, str_eq, str_eq_iff, if◌then◌else◌, ◌==◌, ==_iff, ltb, update,
  update-cases,
}
use leetcode.ConcurrentMap.{
  ConcurrentHashMap, map_create, map_insert, map_get, map_remove, map_destroy,
}
use leetcode.ConcurrentMap.Dictionary.{IsValid, create-IsValid, get-create, insert_lem, remove_lem}
use leetcode.ConcurrentMap.Destroy.{total, destroy-insert, destroy-remove}
use leetcode.ConcurrentMap.Main.{
  num_threads, key_of, val_of, Stage, created, inserted, ended, System, start, Step, insert_val,
  get_val, Reach, here, next, IsJoined, freed_by_main, free_removed,
}

below_4 {κ} : (P : ℕ → Type κ) → P 0 → P 1 → P 2 → P 3 → (i : ℕ) → i < num_threads → P i
below_4 P a b c d zero l = a
below_4 P a b c d (suc zero) l = b
below_4 P a b c d (suc (suc zero)) l = c
below_4 P a b c d (suc (suc (suc zero))) l = d
below_4 P a b c d (suc (suc (suc (suc i)))) l = absurd (omega (arith, l))

-- The keys of the workers differ.
keys_ne :
    (i : ℕ)
    → i < num_threads
    → (j : ℕ) → j < num_threads
    → (j == i) ≡ false
    → str_eq (key_of i) (key_of j) ≡ false
unfolding key_of str_eq
keys_ne =
    below_4
      (λ i. (j : ℕ) → j < num_threads → (j == i) ≡ false → str_eq (key_of i) (key_of j) ≡ false)
      (below_4 (λ j. (j == 0) ≡ false → str_eq (key_of 0) (key_of j) ≡ false)
        (λ e. absurd (ground (arith, e))) (λ _. refl) (λ _. refl) (λ _. refl))
      (below_4 (λ j. (j == 1) ≡ false → str_eq (key_of 1) (key_of j) ≡ false) (λ _. refl)
        (λ e. absurd (ground (arith, e))) (λ _. refl) (λ _. refl))
      (below_4 (λ j. (j == 2) ≡ false → str_eq (key_of 2) (key_of j) ≡ false) (λ _. refl)
        (λ _. refl) (λ e. absurd (ground (arith, e))) (λ _. refl))
      (below_4 (λ j. (j == 3) ≡ false → str_eq (key_of 3) (key_of j) ≡ false) (λ _. refl)
        (λ _. refl) (λ _. refl) (λ e. absurd (ground (arith, e))))

after_insert :
    (m : ConcurrentHashMap ℕ) (i : ℕ)
    → IsValid m
    → map_get (map_insert m (key_of i) (val_of i)).1 (key_of i) ≡ some (val_of i)
after_insert m i v =
    (insert_lem m (key_of i) (val_of i) v).2 (key_of i)
    ∙ rw ((str_eq_iff (key_of i) (key_of i)).1 refl) refl

after_other :
    (m : ConcurrentHashMap ℕ) (i j : ℕ)
    → IsValid m
    → i < num_threads
    → j < num_threads
    → j ≢ i
    → map_get (map_insert m (key_of i) (val_of i)).1 (key_of j) ≡ map_get m (key_of j)
after_other m i j v a b n =
    (insert_lem m (key_of i) (val_of i) v).2 (key_of j)
    ∙ rw (keys_ne i a j b (ground (arith, n))) refl

abbrev is_created : Stage → Bool
is_created created = true
is_created inserted = false
is_created (ended got) = false

abbrev is_ended : Stage → Bool
is_ended created = false
is_ended inserted = false
is_ended (ended got) = true

abbrev got_of : Stage → Option ℕ
got_of created = none
got_of inserted = none
got_of (ended got) = got

-- The number of worker `i` at stage `g`, if it has made its insert.
unfoldable taken : (f : ℕ → ℕ) → (g : Stage) → (i : ℕ) → ℕ
taken f g i = if is_created g then 0 else f (val_of i)

-- Those of the first `n` workers.
unfoldable held : (f : ℕ → ℕ) → (stage : ℕ → Stage) → (n : ℕ) → ℕ
held f stage zero = 0
held f stage (suc n) = taken f (stage n) n + held f stage n

held-update :
    (f : ℕ → ℕ) (st : ℕ → Stage) (i : ℕ) (g : Stage) (n : ℕ)
    → held f (update st i g) n + (if ltb i n then taken f (st i) i else 0)
      ≡ held f st n + (if ltb i n then taken f g i else 0)
unfolding held
held-update f st i g zero = ground arith
held-update f st i g (suc n) =
    let ih = held-update f st i g n in
    let new : taken f (update st i g n) n ≡ (if n == i then taken f g i else taken f (st n) n) =
      elim (Bool-cases (n == i)) [
        | inl e ↦ rw e (ap (taken f g) ((==_iff n i).0 e))
        | inr e ↦ rw e refl
      ] in
    let old : (if n == i then taken f (st i) i else taken f (st n) n) ≡ taken f (st n) n =
      elim (Bool-cases (n == i)) [
        | inl e ↦ rw e (sym (ap (λ z. taken f (st z) z) ((==_iff n i).0 e)))
        | inr e ↦ rw e refl
      ] in
    ground (arith, ih, new, old)

-- Between the calls: a worker has its key in the map from its insert on, and what it has read is its
-- own number; map_destroy would free the numbers that were inserted.
record IsRunning (s : System) : Type 0 where
  valid : IsValid s.map
  absent :
      (i : ℕ) → i < num_threads → is_created (s.stage i) ≡ true → map_get s.map (key_of i) ≡ none
  present :
      (i : ℕ)
      → i < num_threads
      → is_created (s.stage i) ≡ false
      → map_get s.map (key_of i) ≡ some (val_of i)
  read :
      (i : ℕ) → i < num_threads → is_ended (s.stage i) ≡ true → got_of (s.stage i) ≡ some (val_of i)
  freed : (f : ℕ → ℕ) → total f (map_destroy s.map true) ≡ held f s.stage num_threads

nothing : (i : ℕ) → map_get start.map (key_of i) ≡ none
nothing i = get-create 64 (key_of i)

nothing_held : (f : ℕ → ℕ) → total f (map_destroy start.map true) ≡ held f start.stage num_threads
unfolding total map_destroy map_create held taken
nothing_held f = refl

start-IsRunning : IsRunning start
start-IsRunning = record {
  valid = create-IsValid 64 (omega arith);
  absent = λ i _ _. nothing i;
  present = λ i _ e. absurd (ground (arith, e));
  read = λ i _ e. absurd (ground (arith, e));
  freed = nothing_held;
}

Step-IsRunning : {s t : System} → IsRunning s → Step s t → IsRunning t
unfolding taken
Step-IsRunning {s} r (insert_val i l e) =
    let m = (map_insert s.map (key_of i) (val_of i)).1 in
    record {
      valid = (insert_lem s.map (key_of i) (val_of i) r.valid).1;
      absent = λ j b.
          update-cases (λ g. is_created g ≡ true → map_get m (key_of j) ≡ none) s.stage i inserted j
            (λ _ c. absurd (ground (arith, c)))
            (λ n c. after_other s.map i j r.valid l b n ∙ r.absent j b c);
      present = λ j b.
          update-cases (λ g. is_created g ≡ false → map_get m (key_of j) ≡ some (val_of j)) s.stage
            i inserted j (λ q _. rw q (after_insert s.map i r.valid))
            (λ n c. after_other s.map i j r.valid l b n ∙ r.present j b c);
      read = λ j b.
          update-cases (λ g. is_ended g ≡ true → got_of g ≡ some (val_of j)) s.stage i inserted j
            (λ _ c. absurd (ground (arith, c))) (λ _. r.read j b);
      freed = λ f.
          let a =
            destroy-insert f s.map (key_of i) (val_of i) r.valid (r.absent i l (ap is_created e)) in
          let b = held-update f s.stage i inserted num_threads in
          let c = ap (λ g. taken f g i) e in let d = r.freed f in ground (arith, a, b, c, d, l);
    }
Step-IsRunning {s} r (get_val i l e) =
    let got = map_get s.map (key_of i) in
    record {
      valid = r.valid;
      absent = λ j b.
          update-cases (λ g. is_created g ≡ true → map_get s.map (key_of j) ≡ none) s.stage i
            (ended got) j (λ _ c. absurd (ground (arith, c))) (λ _. r.absent j b);
      present = λ j b.
          update-cases (λ g. is_created g ≡ false → map_get s.map (key_of j) ≡ some (val_of j))
            s.stage i (ended got) j (λ q _. rw q (r.present i l (ap is_created e)))
            (λ _. r.present j b);
      read = λ j b.
          update-cases (λ g. is_ended g ≡ true → got_of g ≡ some (val_of j)) s.stage i (ended got) j
            (λ q _. rw q (r.present i l (ap is_created e))) (λ _. r.read j b);
      freed = λ f.
          let b = held-update f s.stage i (ended got) num_threads in
          let c = ap (λ g. taken f g i) e in let d = r.freed f in ground (arith, b, c, d, l);
    }

Reach-IsRunning : {s : System} → Reach s → IsRunning s
Reach-IsRunning here = start-IsRunning
Reach-IsRunning (next p q) = Step-IsRunning (Reach-IsRunning p) q

freed_by_main-total :
    (f : ℕ → ℕ) (m : ConcurrentHashMap ℕ) (v : ℕ)
    → IsValid m
    → map_get m (key_of 1) ≡ some v
    → total f (freed_by_main m) ≡ total f (map_destroy m true)
unfolding freed_by_main total free_removed
freed_by_main-total f m v ok e =
    ap (λ o. total f (free_removed o (map_destroy (map_remove m (key_of 1)).1 true)))
      ((remove_lem m (key_of 1) ok).0 ∙ e)
    ∙ destroy-remove f m (key_of 1) v ok e

held_all :
    (f : ℕ → ℕ) (stage : ℕ → Stage)
    → ((id : ℕ) → id < num_threads → is_created (stage id) ≡ false)
    → held f stage num_threads ≡ f 100 + f 200 + f 300 + f 400
unfolding held taken
held_all f stage h =
    let a = h 0 (omega arith) in
    let b = h 1 (omega arith) in
    let c = h 2 (omega arith) in let d = h 3 (omega arith) in ground (arith, a, b, c, d)

-- In any interleaving of the threads, once main has joined them every worker has read the number that
-- it inserted, and main frees the numbers of all four, each exactly once: the sum of any function
-- over what is freed is its sum over the four numbers.
pub workers_freed :
    {s : System} (f : ℕ → ℕ)
    → Reach s
    → IsJoined s
    → ((id : ℕ) → id < num_threads → s.stage id ≡ ended (some (val_of id)))
      × (total f (freed_by_main s.map) ≡ f 100 + f 200 + f 300 + f 400)
workers_freed {s} f p h =
    let r = Reach-IsRunning p in
    let inside : (id : ℕ) → id < num_threads → is_created (s.stage id) ≡ false =
      λ id l. ap is_created (h id l).1 in
    (
      λ i l. let (got, e) = h i l in e ∙ ap ended (sym (ap got_of e) ∙ r.read i l (ap is_ended e)),
      freed_by_main-total f s.map (val_of 1) r.valid
            (r.present 1 (omega arith) (inside 1 (omega arith)))
          ∙ r.freed f
          ∙ held_all f s.stage inside,
    )
