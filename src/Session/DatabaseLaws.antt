-- ===== src/Session/DatabaseLaws.antt =====
-- packages/ketjs/src/server/sessionstore.ts: the database store keeps the contract.
use ketjs.Common.{
  ℕ, ◌≤◌, String, Bool, true, false, ◌&&◌, not, ◌≡◌, refl, inl, inr, Option, none, some, [], ◌∷◌,
  ◌++◌, str_eq, eq_iff, ltb, leb, ◌==◌, kept, if◌then◌else◌, Bool-cases, any, All, In, here, there,
  In-filter, In-sort_by, All-sort_by, All-filters, All-map, arith,
}
use ketjs.Session.Record.{SessionRecord, alive, in_context, newer, live}
use ketjs.Session.Views.{live-kept, live-kept_comm, alive_of}
use ketjs.Session.Store.{SessionStore, Laws}
use ketjs.Session.Database
use ketjs.Session.Database.{SessionTable, select_id, delete_where}
use ketjs.Session.DatabaseCalls.{
  KeysApart, filter-KeysApart, absent-select, select-filter, select-id, update-KeysApart,
  view-update, kept-live, kept-live_and, read_answer, read_Valid, read_keeps, touch_answer,
  update_answer,
}

abbrev pub database_store : SessionStore SessionTable
database_store = record {
  Valid = KeysApart;
  get = select_id;
  create = Database.create;
  read = Database.read;
  touch = Database.touch;
  update_context = Database.update_context;
  destroy = Database.destroy;
  list_user = Database.list_user;
  destroy_user = Database.destroy_user;
  destroy_user_except = Database.destroy_user_except;
  sweep = Database.sweep;
}

select-append :
    (k : String) (t : SessionTable) (r : SessionRecord)
    → any (λ q. str_eq q.id r.id) t ≡ false
    → select_id k (t ++ r ∷ []) ≡ (if str_eq r.id k then some r else select_id k t)
select-append k [] r h = refl
select-append k (q ∷ t) r h =
    ground (arith, select-append k t r, eq_iff q.id k, eq_iff r.id k, eq_iff q.id r.id)

any-append :
    (id : String) (t : SessionTable) (r : SessionRecord)
    → any (λ q. str_eq q.id id) t ≡ false
    → str_eq r.id id ≡ false
    → any (λ q. str_eq q.id id) (t ++ r ∷ []) ≡ false
any-append id [] r h k = rw k refl
any-append id (q ∷ t) r h k = ground (arith, any-append id t r)

append-KeysApart :
    (t : SessionTable) (r : SessionRecord)
    → any (λ q. str_eq q.id r.id) t ≡ false
    → KeysApart t
    → KeysApart (t ++ r ∷ [])
append-KeysApart [] r h v = (refl, tt)
append-KeysApart (q ∷ t) r h v = (
  any-append q.id t r v.0 (ground (arith, h, eq_iff q.id r.id, eq_iff r.id q.id)),
  append-KeysApart t r (ground (arith, h)) v.1,
)

inserted :
    (r : SessionRecord) (t u : SessionTable)
    → Database.create r t ≡ some u
    → (any (λ q. str_eq q.id r.id) t ≡ false) × (t ++ r ∷ [] ≡ u)
unfolding Database.create
inserted r t u h = elim (Bool-cases (any (λ q. str_eq q.id r.id) t)) [
  | inl c ↦ cc (rw c at h)
  | inr c ↦ (c, some_eq (rw c at h))
]
  where
    some_eq : {a b : SessionTable} → some a ≡ some b → a ≡ b
    some_eq h = cc

created :
    (r : SessionRecord) (t u : SessionTable) (at : ℕ) (k : String)
    → Database.create r t ≡ some u
    → live at (select_id k u)
      ≡ (if str_eq r.id k then live at (some r) else live at (select_id k t))
created r t u at k h =
    let (fresh, same) = inserted r t u h in rw (← same, select-append k t r fresh) (ground arith)

create_Valid :
    (r : SessionRecord) (t u : SessionTable)
    → KeysApart t
    → Database.create r t ≡ some u
    → KeysApart u
create_Valid r t u v h =
    let (fresh, same) = inserted r t u h in rw (← same) (append-KeysApart t r fresh v)

-- The rows that a DELETE drops.
dropped :
    (p : SessionRecord → Bool) (t : SessionTable) (at : ℕ) (k : String)
    → KeysApart t
    → live at (select_id k (delete_where p t).0) ≡ kept (λ r. not (p r)) (live at (select_id k t))
dropped p t at k v =
    rw (select-filter k (λ r. not (p r)) t v) (live-kept_comm (λ r. not (p r)) at (select_id k t))

dropped_dead :
    (p : SessionRecord → Bool) (t : SessionTable) (now at : ℕ) (k : String)
    → KeysApart t
    → ((r : SessionRecord) → alive r now ≡ true → p r ≡ false)
    → now ≤ at
    → live at (select_id k (delete_where p t).0) ≡ live at (select_id k t)
dropped_dead p t now at k v h le =
    rw (select-filter k (λ r. not (p r)) t v)
      (live-kept (λ r. not (p r)) now at (select_id k t) (λ r a. rw (h r a) refl) le)

destroyed :
    (id : String) (t : SessionTable) (at : ℕ) (k : String)
    → KeysApart t
    → live at (select_id k (Database.destroy id t))
      ≡ (if str_eq id k then none else live at (select_id k t))
unfolding Database.destroy
destroyed id t at k v =
    rw (select-filter k (λ r. not (str_eq r.id id)) t v) (gone (select_id k t) (select-id k t))
  where
    gone :
        (o : Option SessionRecord)
        → ((r : SessionRecord) → o ≡ some r → str_eq r.id k ≡ true)
        → live at (kept (λ r. not (str_eq r.id id)) o) ≡ (if str_eq id k then none else live at o)
    gone none h = ground arith
    gone (some r) h = ground (arith, h r refl, eq_iff r.id id, eq_iff r.id k, eq_iff id k)

others_destroyed :
    (u keep : String) (t : SessionTable) (at : ℕ) (k : String)
    → KeysApart t
    → live at (select_id k (Database.destroy_user_except u keep t).0) ≡ (
        if str_eq k keep
        then live at (select_id k t)
        else kept (λ r. not (str_eq r.user_id u)) (live at (select_id k t)))
unfolding Database.destroy_user_except
others_destroyed u keep t at k v =
    rw (select-filter k (λ r. not (str_eq r.user_id u && not (str_eq r.id keep))) t v)
      (others (select_id k t) (select-id k t))
  where
    others :
        (o : Option SessionRecord)
        → ((r : SessionRecord) → o ≡ some r → str_eq r.id k ≡ true)
        → live at (kept (λ r. not (str_eq r.user_id u && not (str_eq r.id keep))) o)
          ≡ (if str_eq k keep then live at o else kept (λ r. not (str_eq r.user_id u)) (live at o))
    others none h = ground arith
    others (some r) h = ground (arith, h r refl, eq_iff r.id keep, eq_iff r.id k, eq_iff k keep)

list_sound :
    (now : ℕ) (u : String) (t : SessionTable)
    → All (λ r. (alive r now ≡ true) × (str_eq r.user_id u ≡ true)) (Database.list_user now u t).1
unfolding Database.list_user
list_sound now u t =
    All-sort_by newer (λ r. (alive r now ≡ true) × (str_eq r.user_id u ≡ true)) _
      (All-map _ (λ r. (alive r now ≡ true) × (str_eq r.user_id u ≡ true))
        (λ r h. ground (arith, h.0, h.1)) _
        (All-filters (λ r. not (str_eq r.user_id u && leb r.expires_at now))
          (λ r. str_eq r.user_id u) t))

select-In : (k : String) (t : SessionTable) (r : SessionRecord) → select_id k t ≡ some r → In r t
select-In k [] r h = cc
select-In k (q ∷ t) r h = elim (Bool-cases (str_eq q.id k)) [
  | inl e ↦ let same : r ≡ q = cc in here same
  | inr e ↦ there (select-In k t r (rw e at h))
]

list_complete :
    (now : ℕ) (u k : String) (t : SessionTable) (r : SessionRecord)
    → live now (select_id k t) ≡ some r
    → str_eq r.user_id u ≡ true
    → In r (Database.list_user now u t).1
unfolding Database.list_user
list_complete now u k t r h e =
    let (found, a) = alive_of now (select_id k t) r h in
    In-sort_by newer (
      In-filter (λ x. str_eq x.user_id u)
        (In-filter (λ x. not (str_eq x.user_id u && leb x.expires_at now)) (select-In k t r found)
          (ground (arith, a)))
        e)

-- The database store keeps the contract of a session store: what is read is what is alive; a refresh
-- and a change of context touch the one live session, the latter only at the revision that was
-- read; ended sessions are gone and no others; the list of a user has exactly live sessions of the
-- user, and all of them; reading, listing and sweeping change nothing that is alive.
pub database_laws : Laws database_store
unfolding Database.create Database.destroy Database.list_user Database.destroy_user
    Database.destroy_user_except Database.sweep Database.touch Database.update_context
database_laws = record {
  create_Valid = create_Valid;
  created = created;
  can_create = λ r t h. (t ++ r ∷ [], rw (absent-select r.id t h) refl);
  read_Valid = read_Valid;
  read_answer = read_answer;
  read_keeps = λ now id t v at k le. read_keeps now id t v at k le;
  touch_Valid = λ now id e t v.
      update-KeysApart (λ r. str_eq r.id id && ltb now r.expires_at)
        (λ r. record r { expires_at = e }) (λ r. refl) t v;
  touch_answer = λ now id e t v. touch_answer now id t v e;
  touched = λ now id e t at k v. rw (← kept-live now (select_id id t)) (
      view-update id (λ r. ltb now r.expires_at) (λ r. record r { expires_at = e }) (λ r. refl) t at
        k);
  update_Valid = λ now id n c t v.
      update-KeysApart (λ r. str_eq r.id id && (r.revision == n && ltb now r.expires_at))
        (in_context c) (λ r. refl) t v;
  update_answer = λ now id n c t v. update_answer now id t v n c;
  updated = λ now id n c t at k v. rw (← kept-live_and now n (select_id id t)) (
      view-update id (λ r. r.revision == n && ltb now r.expires_at) (in_context c) (λ r. refl) t at
        k);
  destroy_Valid = λ id t v. filter-KeysApart _ t v;
  destroyed = destroyed;
  list_Valid = λ now u t v. filter-KeysApart _ t v;
  list_keeps = λ now u t v at k le.
      dropped_dead (λ r. str_eq r.user_id u && leb r.expires_at now) t now at k v
        (λ r a. ground (arith, a)) le;
  list_sound = list_sound;
  list_complete = λ now u k t r v h e. list_complete now u k t r h e;
  destroy_user_Valid = λ u t v. filter-KeysApart _ t v;
  user_destroyed = λ u t at k v. dropped (λ r. str_eq r.user_id u) t at k v;
  except_Valid = λ u keep t v. filter-KeysApart _ t v;
  others_destroyed = others_destroyed;
  sweep_Valid = λ now t v. filter-KeysApart _ t v;
  sweep_keeps = λ now t v at k le.
      dropped_dead (λ r. leb r.expires_at now) t now at k v (λ r a. ground (arith, a)) le;
}
