-- ===== src/Pool/Tests.antt =====
-- packages/ketjs/src/data/pool.ts: a pool of one database, which changes hands.
use ketjs.Common.{◌≤◌, String, true, false, ◌≡◌, ◌↔◌, refl, some, none, All, In, length, lookup}
use ketjs.Pool.{Entry, Pool, found, refused, pool_full}
use ketjs.Pool.Operations.{
  is_idle, victim, oldest_from, current, delete_entry, create_entry, evict_for, make_room, admit,
  enter_admission, lease_entry, lease, resume_entry, resume, connected_entry, start_acquire,
  opening_done, release_entry, release, victim_closed,
}
use ketjs.Pool.Steps.{
  empty_pool, Reach, entering, leasing, resuming, opening_well, releasing, closing_well, start,
  step,
}
use ketjs.Pool.Victim.{IsOldest, victim_lem, enter_admission-full}
use ketjs.Pool.Safe.{IsSafe}
use ketjs.Pool.Reachable.{Reach-IsSafe}

-- One database is opened, leased and used.
abbrev held : Pool
held =
    (resume "a" 0 5 (opening_done "a" 0 (lease "a" 0 (enter_admission 1 "a" 3 empty_pool).0).0)).0

abbrev changed : Pool
changed =
    (victim_closed 1 9 (enter_admission 1 "b" 8 (release "a" 7 held)).0.admission
      (enter_admission 1 "b" 8 (release "a" 7 held)).0).0

full : (enter_admission 1 "b" 8 held).1 ≡ refused pool_full
unfolding enter_admission admit make_room evict_for create_entry victim oldest_from lease
    lease_entry resume resume_entry opening_done connected_entry current empty_pool
full = refl

only_b : lookup "a" changed.entries ≡ none
unfolding enter_admission admit make_room evict_for create_entry victim oldest_from lease
    lease_entry resume resume_entry opening_done connected_entry current empty_pool release
    release_entry victim_closed delete_entry
only_b = refl

taken : start_acquire "a" held ≡ found 0
unfolding enter_admission admit make_room create_entry lease lease_entry resume resume_entry
    opening_done connected_entry current empty_pool start_acquire
taken = refl

held-Reach : Reach 1 held
unfolding empty_pool
held-Reach =
    step (step (step (step start (entering "a" 3 refl)) (leasing "a" 0)) (opening_well "a" 0))
      (resuming "a" 0 5)

changed-Reach : Reach 1 changed
unfolding enter_admission admit make_room evict_for create_entry victim oldest_from lease
    lease_entry resume resume_entry opening_done connected_entry current empty_pool release
    release_entry victim_closed delete_entry
changed-Reach =
    step (step (step held-Reach (releasing "a" 7)) (entering "b" 8 refl)) (closing_well 9)

Reach-IsSafe_example : IsSafe 1 changed
Reach-IsSafe_example = Reach-IsSafe 1 changed changed-Reach

victim_example :
    IsOldest (victim held.entries) held.entries
    × ((x : String × Entry)
        → victim held.entries ≡ some x
        → In x held.entries × (is_idle x.1 ≡ true))
victim_example = victim_lem held.entries

enter_admission-full_example :
    ((enter_admission 1 "b" 8 held).1 ≡ refused pool_full)
    ↔ ((1 ≤ length held.entries) × All (λ (x : String × Entry). is_idle x.1 ≡ false) held.entries)
unfolding enter_admission admit make_room evict_for create_entry victim oldest_from lease
    lease_entry resume resume_entry opening_done connected_entry current empty_pool
enter_admission-full_example = enter_admission-full 1 "b" 8 held refl refl
