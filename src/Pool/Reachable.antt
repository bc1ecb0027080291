-- ===== src/Pool/Reachable.antt =====
-- packages/ketjs/src/data/pool.ts: every step keeps the pool safe.
use ketjs.Common.{
  ℕ, suc, ◌≤◌, String, true, false, ◌≡◌, refl, inl, inr, Option, none, some, List, [], ◌∷◌,
  Bool-cases, leb, length, lookup, has_key, insert-IsMap, In-lookup, lookup-absent,
  length-insert_absent, All-insert, arith,
}
use ketjs.Pool.{Entry, Admission, unlocked, making_room, sweeping, draining, Pool, Answer}
use ketjs.Pool.Operations.{
  is_open, is_idle, victim, mark_closing, new_entry, add_lease, drop_lease, use_at, end_opening,
  connect, current, with_admission, delete_entry, create_entry, evict_for, make_room, admit,
  enter_admission, lease_entry, lease, resume_entry, resume, connected_entry, opening_done,
  opening_failed, release_entry, release, references, is_stale_entry, sweep_one, sweep_from,
  evict_idle, mark_current, drain_from, start_drain, shut_down, victim_closed, victim_failed,
}
use ketjs.Pool.Steps.{
  empty_pool, Step, Reach, entering, leasing, resuming, opening_well, opening_badly, releasing,
  sweeping_idle, shutting_down, starting_drain, closing_well, closing_badly, start, step,
}
use ketjs.Pool.Victim.{victim_lem}
use ketjs.Pool.Safe.{
  IsUnleased, IsSound, Reserved, IsSafe, with_admission-IsSafe, put-IsSafe, delete_entry-IsSound,
  delete_entry-Reserved, current-lookup,
}

module _ (max : ℕ) where
  create_entry-IsSafe :
      (key : String) (now : ℕ) (p : Pool)
      → suc (length p.entries) ≤ max
      → has_key key p.entries ≡ false
      → IsSound max p
      → IsSafe max (create_entry key now p).0
  unfolding create_entry
  create_entry-IsSafe key now p room absent s = elim (Bool-cases (is_open p.lifecycle)) [
    | inr c ↦ rw c (with_admission-IsSafe max unlocked p s tt)
    | inl c ↦ rw c (
      record {
        few = rw (length-insert_absent key (new_entry p.next now) p.entries absent) room;
        keyed = insert-IsMap key _ p.entries s.keyed;
        unleased = λ o.
            All-insert IsUnleased key (new_entry p.next now) p.entries (λ h. refl) (s.unleased o);
      },
      tt,
    )
  ]

  idle-IsUnleased : (k : String) (e : Entry) → is_idle e ≡ true → IsUnleased (k, mark_closing e)
  idle-IsUnleased k e h closing = ground (arith, h)

  evict_for-IsSafe :
      (key : String) (p : Pool) (v : Option (String × Entry))
      → victim p.entries ≡ v
      → has_key key p.entries ≡ false
      → IsSound max p
      → IsSafe max (evict_for key v p).0
  unfolding evict_for
  evict_for-IsSafe key p none e a s = with_admission-IsSafe max unlocked p s tt
  evict_for-IsSafe key p (some (k, x)) e a s =
      let (m, i) = (victim_lem p.entries).1 (k, x) e in
      let l = In-lookup k x p.entries s.keyed m in
      let safe =
        put-IsSafe max k x (mark_closing x) (with_admission (making_room key k x.number) p) l
          (λ o h. idle-IsUnleased k x i)
          (with_admission-IsSafe max (making_room key k x.number) p s a) in
      safe

  make_room-IsSafe :
      (key : String) (now : ℕ) (p : Pool)
      → has_key key p.entries ≡ false
      → IsSound max p
      → IsSafe max (make_room max key now p).0
  unfolding make_room
  make_room-IsSafe key now p a s = elim (Bool-cases (leb max (length p.entries))) [
    | inl c ↦ rw c (evict_for-IsSafe key p (victim p.entries) refl a s)
    | inr c ↦ rw c (create_entry-IsSafe key now p (ground (arith, c)) a s)
  ]

  admit-IsSafe :
      (key : String) (now : ℕ) (p : Pool) (o : Option Entry)
      → lookup key p.entries ≡ o
      → IsSound max p
      → IsSafe max (admit max key now p o).0
  unfolding admit
  admit-IsSafe key now p none e s = make_room-IsSafe key now p (lookup-absent key p.entries e) s
  admit-IsSafe key now p (some x) e s = elim (Bool-cases x.closing) [
    | inl c ↦ rw c (with_admission-IsSafe max unlocked p s tt)
    | inr c ↦ rw c (with_admission-IsSafe max unlocked p s tt)
  ]

  enter_admission-IsSafe :
      (key : String) (now : ℕ) (p : Pool)
      → IsSound max p
      → IsSafe max (enter_admission max key now p).0
  unfolding enter_admission
  enter_admission-IsSafe key now p s = elim (Bool-cases (is_open p.lifecycle)) [
    | inl c ↦ rw c (admit-IsSafe key now p (lookup key p.entries) refl s)
    | inr c ↦ rw c (with_admission-IsSafe max unlocked p s tt)
  ]

  lease_entry-IsSafe :
      (key : String) (p : Pool) (o : Option Entry)
      → ((e : Entry) → o ≡ some e → lookup key p.entries ≡ some e)
      → IsSafe max p
      → IsSafe max (lease_entry key p o).0
  unfolding lease_entry
  lease_entry-IsSafe key p none l s = s
  lease_entry-IsSafe key p (some e) l s = elim (Bool-cases e.closing) [
    | inl c ↦ rw c s
    | inr c ↦ elim (Bool-cases (is_open p.lifecycle)) [
      | inr d ↦ rw (c, d) s
      | inl d ↦
          rw (c, d) (rw c at (put-IsSafe max key e (add_lease e) p (l e refl) (λ o u h. cc) s))
    ]
  ]

  resume_entry-IsSafe :
      (key : String) (now : ℕ) (p : Pool) (o : Option Entry)
      → ((e : Entry) → o ≡ some e → lookup key p.entries ≡ some e)
      → IsSafe max p
      → IsSafe max (resume_entry key now p o).0
  unfolding resume_entry
  resume_entry-IsSafe key now p none l s = s
  resume_entry-IsSafe key now p (some e) l s = elim (Bool-cases (is_open p.lifecycle)) [
    | inr d ↦ rw d (
        put-IsSafe max key e (drop_lease (end_opening e)) p (l e refl)
          (λ o u h. ground (arith, u h)) s)
    | inl d ↦ rw d (put-IsSafe max key e (use_at now (end_opening e)) p (l e refl) (λ o u. u) s)
  ]

  connected_entry-IsSafe :
      (key : String) (p : Pool) (o : Option Entry)
      → ((e : Entry) → o ≡ some e → lookup key p.entries ≡ some e)
      → IsSafe max p
      → IsSafe max (connected_entry key p o)
  unfolding connected_entry
  connected_entry-IsSafe key p none l s = s
  connected_entry-IsSafe key p (some e) l s =
      put-IsSafe max key e (connect e) p (l e refl) (λ o u. u) s

  release_entry-IsSafe :
      (key : String) (now : ℕ) (p : Pool) (o : Option Entry)
      → lookup key p.entries ≡ o
      → IsSafe max p
      → IsSafe max (release_entry key now p o)
  unfolding release_entry
  release_entry-IsSafe key now p none l s = s
  release_entry-IsSafe key now p (some e) l s =
      put-IsSafe max key e (use_at now (drop_lease e)) p l (λ o u h. ground (arith, u h)) s

  sweep_one-IsSafe :
      (idle_ms now n : ℕ) (key : String) (number : ℕ) (rest : List (String × ℕ)) (p : Pool)
      (later : Pool × Answer) (o : Option Entry)
      → ((e : Entry) → o ≡ some e → lookup key p.entries ≡ some e)
      → IsSound max p
      → IsSafe max later.0
      → IsSafe max (sweep_one idle_ms now n key number rest p later o).0
  unfolding sweep_one
  sweep_one-IsSafe idle_ms now n key number rest p later none l s h = h
  sweep_one-IsSafe idle_ms now n key number rest p later (some e) l s h =
      elim (Bool-cases (is_stale_entry idle_ms now e)) [
        | inr c ↦ rw c h
        | inl c ↦ rw c (
            put-IsSafe max key e (mark_closing e)
              (with_admission (sweeping idle_ms now n key number rest) p) (l e refl)
              (λ o u closing. ground (arith, c))
              (with_admission-IsSafe max (sweeping idle_ms now n key number rest) p s tt))
      ]

  sweep_from-IsSafe :
      (idle_ms now n : ℕ) (rest : List (String × ℕ)) (p : Pool)
      → IsSound max p
      → IsSafe max (sweep_from idle_ms now n rest p).0
  unfolding sweep_from
  sweep_from-IsSafe idle_ms now n [] p s = with_admission-IsSafe max unlocked p s tt
  sweep_from-IsSafe idle_ms now n ((key, number) ∷ rest) p s =
      sweep_one-IsSafe idle_ms now n key number rest p _ (current key number p)
        (current-lookup max key number p) s (sweep_from-IsSafe idle_ms now n rest p s)

  drain_from-IsSafe :
      (rest : List (String × ℕ)) (p : Pool)
      → is_open p.lifecycle ≡ false
      → IsSound max p
      → IsSafe max (drain_from rest p).0
  unfolding drain_from mark_current
  drain_from-IsSafe [] p c s = (record { few = omega arith; keyed = tt; unleased = λ o. tt }, tt)
  drain_from-IsSafe ((key, number) ∷ rest) p c s =
      marked (current key number p) (current-lookup max key number p)
    where
      marked :
          (o : Option Entry)
          → ((e : Entry) → o ≡ some e → lookup key p.entries ≡ some e)
          → IsSafe max (with_admission (draining key number rest) (mark_current key p o))
      marked none l = with_admission-IsSafe max (draining key number rest) p s c
      marked (some e) l =
          put-IsSafe max key e (mark_closing e) (with_admission (draining key number rest) p)
            (l e refl) (λ o u. cc) (with_admission-IsSafe max (draining key number rest) p s c)

  victim_closed-IsSafe :
      (now : ℕ) (a : Admission) (p : Pool)
      → Reserved a p
      → IsSafe max p
      → IsSafe max (victim_closed max now a p).0
  unfolding victim_closed
  victim_closed-IsSafe now unlocked p r s = s
  victim_closed-IsSafe now (making_room key k n) p r s =
      make_room-IsSafe key now _ (delete_entry-Reserved max (making_room key k n) k n p r)
        (delete_entry-IsSound max k n p s.0)
  victim_closed-IsSafe now (sweeping i t m k n rest) p r s =
      sweep_from-IsSafe i t (suc m) rest _ (delete_entry-IsSound max k n p s.0)
  victim_closed-IsSafe now (draining k n rest) p r s =
      drain_from-IsSafe rest _ (delete_entry-Reserved max (draining k n rest) k n p r)
        (delete_entry-IsSound max k n p s.0)

  victim_failed-IsSafe :
      (a : Admission) (p : Pool) → Reserved a p → IsSafe max p → IsSafe max (victim_failed a p)
  unfolding victim_failed
  victim_failed-IsSafe unlocked p r s = s
  victim_failed-IsSafe (making_room key k n) p r s =
      with_admission-IsSafe max unlocked _ (delete_entry-IsSound max k n p s.0) tt
  victim_failed-IsSafe (sweeping i t m k n rest) p r s =
      with_admission-IsSafe max unlocked _ (delete_entry-IsSound max k n p s.0) tt
  victim_failed-IsSafe (draining k n rest) p r s =
      drain_from-IsSafe rest _ (delete_entry-Reserved max (draining k n rest) k n p r)
        (delete_entry-IsSound max k n p s.0)

  shut_down-IsSafe : (p : Pool) → IsSafe max p → IsSafe max (shut_down p)
  unfolding shut_down
  shut_down-IsSafe p (s, r) =
      (record { few = s.few; keyed = s.keyed; unleased = λ o. cc }, kept p.admission r)
    where
      kept : (a : Admission) → Reserved a p → Reserved a (shut_down p)
      kept unlocked r = tt
      kept (making_room key k n) r = r
      kept (sweeping i t m k n rest) r = tt
      kept (draining k n rest) r = refl

  Step-IsSafe : (p q : Pool) → Step max p q → IsSafe max p → IsSafe max q
  unfolding lease resume opening_done opening_failed release evict_idle start_drain delete_entry
  Step-IsSafe p _ (entering key now u) s = enter_admission-IsSafe key now p s.0
  Step-IsSafe p _ (leasing key n) s =
      lease_entry-IsSafe key p (current key n p) (current-lookup max key n p) s
  Step-IsSafe p _ (resuming key n now) s =
      resume_entry-IsSafe key now p (current key n p) (current-lookup max key n p) s
  Step-IsSafe p _ (opening_well key n) s =
      connected_entry-IsSafe key p (current key n p) (current-lookup max key n p) s
  Step-IsSafe p _ (opening_badly key n) s =
      (delete_entry-IsSound max key n p s.0, delete_entry-Reserved max p.admission key n p s.1)
  Step-IsSafe p _ (releasing key now) s =
      release_entry-IsSafe key now p (lookup key p.entries) refl s
  Step-IsSafe p _ (sweeping_idle i now u) s = sweep_from-IsSafe i now 0 (references p.entries) p s.0
  Step-IsSafe p _ (shutting_down o) s = shut_down-IsSafe p s
  Step-IsSafe p _ (starting_drain u c) s =
      drain_from-IsSafe (references p.entries) p (rw c refl) s.0
  Step-IsSafe p _ (closing_well now) s = victim_closed-IsSafe now p.admission p s.1 s
  Step-IsSafe p _ closing_badly s = victim_failed-IsSafe p.admission p s.1 s

  -- However acquires, releases, sweeps, evictions and the close of the pool interleave, the pool
  -- holds at most the allowed number of databases, those being closed included, each key has one,
  -- the database for which an acquire makes room is not in the pool, and while the pool is open a
  -- database that is being closed is not leased and no drain runs.
  pub Reach-IsSafe : (p : Pool) → Reach max p → IsSafe max p
  unfolding empty_pool
  Reach-IsSafe _ start = (record { few = omega arith; keyed = tt; unleased = λ o. tt }, tt)
  Reach-IsSafe q (step {p} r s) = Step-IsSafe p q s (Reach-IsSafe p r)
