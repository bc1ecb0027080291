-- ===== src/Session/MemoryLaws.antt =====
-- packages/ketjs/src/server/sessionstore.ts: the memory store keeps the contract.
use ketjs.Common.{
  ℕ, ◌≤◌, String, Bool, true, false, ◌&&◌, not, ◌≡◌, refl, inl, inr, none, some, [], ◌∷◌, str_eq,
  leb, kept, if◌then◌else◌, Bool-cases, Option-cases, lookup, insert, lookup-insert, IsMap,
  insert-IsMap, filter-IsMap, lookup-filter, All, In, here, there, In-map, In-filter, In-sort_by,
  All-sort_by, All-filters, All-of_map, All-map, arith,
}
use ketjs.Session.Record.{SessionRecord, alive, newer, live}
use ketjs.Session.Views.{live-kept, live-kept_comm, alive_of}
use ketjs.Session.Store.{SessionStore, Laws}
use ketjs.Session.Memory
use ketjs.Session.Memory.{Rows, delete_rows, delete_row}
use ketjs.Session.MemoryCalls.{
  lookup-delete_row, read_keeps, read_answer, read_Valid, touch_Valid, touch_answer, touched,
  update_Valid, update_answer, updated,
}

abbrev pub memory_store : SessionStore Rows
memory_store = record {
  Valid = IsMap;
  get = lookup;
  create = Memory.create;
  read = Memory.read;
  touch = Memory.touch;
  update_context = Memory.update_context;
  destroy = Memory.destroy;
  list_user = Memory.list_user;
  destroy_user = Memory.destroy_user;
  destroy_user_except = Memory.destroy_user_except;
  sweep = Memory.sweep;
}

destroyed :
    (id : String) (rows : Rows) (at : ℕ) (k : String)
    → IsMap rows
    → live at (lookup k (Memory.destroy id rows))
      ≡ (if str_eq id k then none else live at (lookup k rows))
unfolding Memory.destroy
destroyed id rows at k v = rw (lookup-delete_row id k rows v) (ground arith)

created :
    (r : SessionRecord) (rows s' : Rows) (at : ℕ) (k : String)
    → Memory.create r rows ≡ some s'
    → live at (lookup k s') ≡ (if str_eq r.id k then live at (some r) else live at (lookup k rows))
unfolding Memory.create
created r rows s' at k h =
    let same : insert r.id r rows ≡ s' = cc in
    rw (← same, lookup-insert r.id k r rows) (ground arith)

create_Valid :
    (r : SessionRecord) (rows s' : Rows) → IsMap rows → Memory.create r rows ≡ some s' → IsMap s'
unfolding Memory.create
create_Valid r rows s' v h =
    let same : insert r.id r rows ≡ s' = cc in rw (← same) (insert-IsMap r.id r rows v)

-- The entries that a test of their records drops.
dropped :
    (p : SessionRecord → Bool) (rows : Rows) (at : ℕ) (k : String)
    → IsMap rows
    → live at (lookup k (delete_rows p rows)) ≡ kept (λ r. not (p r)) (live at (lookup k rows))
dropped p rows at k v =
    rw (lookup-filter k (λ e. not (p e.1)) rows v)
      (live-kept_comm (λ r. not (p r)) at (lookup k rows))

dropped_dead :
    (p : SessionRecord → Bool) (rows : Rows) (now at : ℕ) (k : String)
    → IsMap rows
    → ((r : SessionRecord) → alive r now ≡ true → p r ≡ false)
    → now ≤ at
    → live at (lookup k (delete_rows p rows)) ≡ live at (lookup k rows)
dropped_dead p rows now at k v h le =
    rw (lookup-filter k (λ e. not (p e.1)) rows v)
      (live-kept (λ r. not (p r)) now at (lookup k rows) (λ r a. rw (h r a) refl) le)

except_destroyed :
    (u keep : String) (rows : Rows) (at : ℕ) (k : String)
    → IsMap rows
    → live at (lookup k (Memory.destroy_user_except u keep rows).0) ≡ (
        if str_eq k keep
        then live at (lookup k rows)
        else kept (λ r. not (str_eq r.user_id u)) (live at (lookup k rows)))
unfolding Memory.destroy_user_except
except_destroyed u keep rows at k v =
    rw (lookup-filter k (λ e. not (str_eq e.1.user_id u && not (str_eq e.0 keep))) rows v)
      (elim (Option-cases (lookup k rows)) [
        | inl e ↦ rw e (ground arith)
        | inr (r, e) ↦ rw e (ground arith)
      ])

lookup-In :
    (k : String) (rows : Rows) (r : SessionRecord)
    → lookup k rows ≡ some r
    → (n : String) × In (n, r) rows
lookup-In k [] r h = cc
lookup-In k ((n, q) ∷ rows) r h = elim (Bool-cases (str_eq n k)) [
  | inl e ↦ let same : r ≡ q = cc in (n, here (rw same refl))
  | inr e ↦ let (m, i) = lookup-In k rows r (rw e at h) in (m, there i)
]

list_complete :
    (now : ℕ) (u k : String) (rows : Rows) (r : SessionRecord)
    → live now (lookup k rows) ≡ some r
    → str_eq r.user_id u ≡ true
    → In r (Memory.list_user now u rows).1
unfolding Memory.list_user
list_complete now u k rows r h e =
    let (found, a) = alive_of now (lookup k rows) r h in
    let (n, m) = lookup-In k rows r found in
    In-sort_by newer (
      In-map (λ (x : String × SessionRecord). x.1)
        (In-filter (λ x. str_eq x.1.user_id u)
          (In-filter (λ x. not (not (alive x.1 now))) m (rw a refl)) e))

list_sound :
    (now : ℕ) (u : String) (rows : Rows)
    → All (λ r. (alive r now ≡ true) × (str_eq r.user_id u ≡ true)) (Memory.list_user now u rows).1
unfolding Memory.list_user
list_sound now u rows =
    All-sort_by newer (λ r. (alive r now ≡ true) × (str_eq r.user_id u ≡ true)) _
      (All-of_map (λ r. (alive r now ≡ true) × (str_eq r.user_id u ≡ true)) (λ e. e.1) _
        (All-map _ (λ e. (alive e.1 now ≡ true) × (str_eq e.1.user_id u ≡ true))
          (λ e h. (ground (arith, h.0), h.1)) _
          (All-filters (λ e. not (not (alive e.1 now))) (λ e. str_eq e.1.user_id u) rows)))

-- The memory store keeps the contract of a session store: what is read is what is alive; a refresh
-- and a change of context touch the one live session, the latter only at the revision that was
-- read; ended sessions are gone and no others; the list of a user has exactly live sessions of the
-- user, and all of them; reading, listing and sweeping change nothing that is alive.
pub memory_laws : Laws memory_store
unfolding Memory.create Memory.destroy Memory.list_user Memory.destroy_user
    Memory.destroy_user_except Memory.sweep
memory_laws = record {
  create_Valid = create_Valid;
  created = created;
  can_create = λ r s h. (insert r.id r s, refl);
  read_Valid = read_Valid;
  read_answer = read_answer;
  read_keeps = λ now id s v at k le. read_keeps now id s at k v le;
  touch_Valid = λ now id e s v. touch_Valid now id s e v;
  touch_answer = λ now id e s v. touch_answer now id s e v;
  touched = λ now id e s at k v. touched now id s e at k;
  update_Valid = λ now id n c s v. update_Valid now id s n c v;
  update_answer = λ now id n c s v. update_answer now id s n c;
  updated = λ now id n c s at k v. updated now id s n c at k;
  destroy_Valid = λ id s v. filter-IsMap _ s v;
  destroyed = λ id s at k v. destroyed id s at k v;
  list_Valid = λ now u s v. filter-IsMap _ s v;
  list_keeps =
      λ now u s v at k le. dropped_dead (λ r. not (alive r now)) s now at k v (λ r a. rw a refl) le;
  list_sound = list_sound;
  list_complete = λ now u k s r v h e. list_complete now u k s r h e;
  destroy_user_Valid = λ u s v. filter-IsMap _ s v;
  user_destroyed = λ u s at k v. dropped (λ r. str_eq r.user_id u) s at k v;
  except_Valid = λ u keep s v. filter-IsMap _ s v;
  others_destroyed = λ u keep s at k v. except_destroyed u keep s at k v;
  sweep_Valid = λ now s v. filter-IsMap _ s v;
  sweep_keeps = λ now s v at k le.
      dropped_dead (λ r. leb r.expires_at now) s now at k v (λ r a. ground (arith, a)) le;
}
