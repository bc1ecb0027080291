-- ===== src/Pool/Safe.antt =====
-- packages/ketjs/src/data/pool.ts: what holds of the pool after any sequence of steps.
use ketjs.Common.{
  ℕ, ◌≤◌, String, true, false, not, ◌&&◌, ◌≡◌, inl, inr, some, All, All-In, All-filter, Bool-cases,
  Option-cases, str_eq, eq_iff, ◌==◌, length, lookup, has_key, IsMap, insert-IsMap, filter-IsMap,
  has_key-filter, has_key-insert, lookup-In, In-has_key, length-insert_present, All-insert,
  length-filter, arith,
}
use ketjs.Pool.{Entry, Admission, unlocked, making_room, sweeping, draining, Pool}
use ketjs.Pool.Operations.{is_open, current, put, with_admission, delete_entry}

-- An entry that is being closed has no lease.
abbrev pub IsUnleased : String × Entry → Type 0
IsUnleased x = x.1.closing ≡ true → x.1.leases ≡ 0

-- The databases are no more than the number allowed, each key has one, and while the pool is open
-- no database that is being closed has a lease.
pub record IsSound (max : ℕ) (p : Pool) : Type 0 where
  pub few : length p.entries ≤ max
  pub keyed : IsMap p.entries
  pub unleased : is_open p.lifecycle ≡ true → All IsUnleased p.entries

-- The database for which room is made is not open, and a drained pool is shut.
abbrev pub Reserved : Admission → Pool → Type 0
Reserved unlocked p = Unit
Reserved (making_room key k n) p = has_key key p.entries ≡ false
Reserved (sweeping i t m k n rest) p = Unit
Reserved (draining k n rest) p = is_open p.lifecycle ≡ false

abbrev pub IsSafe : ℕ → Pool → Type 0
IsSafe max p = IsSound max p × Reserved p.admission p

module _ (max : ℕ) where
  pub with_admission-IsSafe :
      (a : Admission) (p : Pool) → IsSound max p → Reserved a p → IsSafe max (with_admission a p)
  with_admission-IsSafe unlocked p s r =
      (record { few = s.few; keyed = s.keyed; unleased = s.unleased }, r)
  with_admission-IsSafe (making_room key k n) p s r =
      (record { few = s.few; keyed = s.keyed; unleased = s.unleased }, r)
  with_admission-IsSafe (sweeping i t m k n rest) p s r =
      (record { few = s.few; keyed = s.keyed; unleased = s.unleased }, r)
  with_admission-IsSafe (draining k n rest) p s r =
      (record { few = s.few; keyed = s.keyed; unleased = s.unleased }, r)

  put-IsSound :
      (key : String) (e f : Entry) (p : Pool)
      → lookup key p.entries ≡ some e
      → (is_open p.lifecycle ≡ true → IsUnleased (key, e) → IsUnleased (key, f))
      → IsSound max p
      → IsSound max (put key f p)
  put-IsSound key e f p l u s = record {
    few =
        rw
          (length-insert_present key f p.entries
            (In-has_key key e p.entries (lookup-In key e p.entries l)))
          s.few;
    keyed = insert-IsMap key f p.entries s.keyed;
    unleased = λ o.
        All-insert IsUnleased key f p.entries
          (u o (All-In IsUnleased (lookup-In key e p.entries l) (s.unleased o))) (s.unleased o);
  }

  put-Reserved :
      (a : Admission) (key : String) (e f : Entry) (p : Pool)
      → lookup key p.entries ≡ some e
      → Reserved a p
      → Reserved a (put key f p)
  put-Reserved unlocked key e f p l r = tt
  put-Reserved (sweeping i t m k n rest) key e f p l r = tt
  put-Reserved (draining k n rest) key e f p l r = r
  put-Reserved (making_room name k n) key e f p l r =
      has_key-insert name key f p.entries (ground (arith, different)) r
    where
      different : str_eq key name ≡ true → ⊥
      different h =
          cc (In-has_key key e p.entries (lookup-In key e p.entries l), r, (eq_iff key name).0 h)

  pub put-IsSafe :
      (key : String) (e f : Entry) (p : Pool)
      → lookup key p.entries ≡ some e
      → (is_open p.lifecycle ≡ true → IsUnleased (key, e) → IsUnleased (key, f))
      → IsSafe max p
      → IsSafe max (put key f p)
  put-IsSafe key e f p l u (s, r) =
      (put-IsSound key e f p l u s, put-Reserved p.admission key e f p l r)

  pub delete_entry-IsSound :
      (key : String) (n : ℕ) (p : Pool) → IsSound max p → IsSound max (delete_entry key n p)
  unfolding delete_entry
  delete_entry-IsSound key n p s = record {
    few = omega (
      arith,
      s.few,
      length-filter (λ (e : String × Entry). not (str_eq e.0 key && e.1.number == n)) p.entries,
    );
    keyed = filter-IsMap _ p.entries s.keyed;
    unleased = λ o. All-filter IsUnleased _ p.entries (s.unleased o);
  }

  pub delete_entry-Reserved :
      (a : Admission) (key : String) (n : ℕ) (p : Pool)
      → Reserved a p
      → Reserved a (delete_entry key n p)
  unfolding delete_entry
  delete_entry-Reserved unlocked key n p r = tt
  delete_entry-Reserved (sweeping i t m k x rest) key n p r = tt
  delete_entry-Reserved (draining k x rest) key n p r = r
  delete_entry-Reserved (making_room name k x) key n p r = has_key-filter name _ p.entries r

  pub current-lookup :
      (key : String) (n : ℕ) (p : Pool) (e : Entry)
      → current key n p ≡ some e
      → lookup key p.entries ≡ some e
  unfolding current
  current-lookup key n p e h = elim (Option-cases (lookup key p.entries)) [
    | inl l ↦ cc (rw (current, l) at h)
    | inr (f, l) ↦ elim (Bool-cases (f.number == n)) [
      | inl c ↦ cc (rw (current, l, c) at h, l)
      | inr c ↦ cc (rw (current, l, c) at h)
    ]
  ]
