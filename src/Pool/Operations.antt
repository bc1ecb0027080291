-- ===== src/Pool/Operations.antt =====
-- packages/ketjs/src/data/pool.ts: acquire, release, evictIdle and close, from one await to the
-- next. The errors that close collects are left out.
use ketjs.Common.{
  ℕ, suc, ◌+◌, ◌-◌, String, Bool, true, false, ◌&&◌, ◌||◌, not, Option, none, some, List, [], ◌∷◌,
  map, str_eq, ltb, leb, ◌==◌, if◌then◌else◌, length, filter, lookup, insert,
}
use ketjs.Pool.{
  Entry, Lifecycle, opened, shutting, shut, Admission, unlocked, making_room, sweeping, draining,
  Pool, pool_closed, pool_full, entry_closing, not_connected, Answer, found, waiting, adapter,
  swept, done, refused,
}

abbrev pub is_open : Lifecycle → Bool
is_open opened = true
is_open _ = false

-- Not skipped by an eviction.
abbrev pub is_idle : Entry → Bool
is_idle e = not (ltb 0 e.leases || (e.opening || e.closing))

-- `!oldest || e.lastUsed < oldest[1].lastUsed`
abbrev pub older : Option (String × Entry) → String × Entry → Option (String × Entry)
older none x = some x
older (some o) x = if ltb x.1.last_used o.1.last_used then some x else some o

unfoldable pub oldest_from :
    Option (String × Entry) → List (String × Entry) → Option (String × Entry)
oldest_from o [] = o
oldest_from o (x ∷ entries) = oldest_from (if is_idle x.1 then older o x else o) entries

-- The entry that `evictOne` closes.
unfoldable pub victim : List (String × Entry) → Option (String × Entry)
victim entries = oldest_from none entries

abbrev pub mark_closing : Entry → Entry
mark_closing e = record e { closing = true }

abbrev pub with_entries : List (String × Entry) → Pool → Pool
with_entries entries p = record p { entries = entries }

abbrev pub with_admission : Admission → Pool → Pool
with_admission a p = record p { admission = a }

-- The entry of a key, if it is still the one with the number.
unfoldable pub current : String → ℕ → Pool → Option Entry
current key number p = elim (lookup key p.entries) [
  | none ↦ none
  | some e ↦ if e.number == number then some e else none
]

abbrev pub put : String → Entry → Pool → Pool
put key e p = with_entries (insert key e p.entries) p

-- `if (entries.get(key) === entry) entries.delete(key)`
unfoldable pub delete_entry : String → ℕ → Pool → Pool
delete_entry key number p =
    with_entries
      (filter (λ (e : String × Entry). not (str_eq e.0 key && e.1.number == number)) p.entries) p

abbrev pub new_entry : ℕ → ℕ → Entry
new_entry number now = record {
  number = number;
  leases = 0;
  last_used = now;
  opening = true;
  connected = false;
  closing = false;
}

-- The start of an acquire: the entry that it takes without the lock, if there is one.
abbrev pub free_entry : Option Entry → Answer
free_entry none = waiting
free_entry (some e) = if e.closing then waiting else found e.number

unfoldable pub start_acquire : String → Pool → Answer
start_acquire key p =
    if is_open p.lifecycle then free_entry (lookup key p.entries) else refused pool_closed

-- The end of an admission: the new entry of a key, unless the pool has been closed.
unfoldable pub create_entry : String → ℕ → Pool → Pool × Answer
create_entry key now p =
    if is_open p.lifecycle
    then (
      record p {
        entries = insert key (new_entry p.next now) p.entries;
        admission = unlocked;
        next = suc p.next;
      },
      found p.next,
    )
    else (with_admission unlocked p, refused pool_closed)

-- A turn of the loop that makes room: an eviction is begun, or the pool is full.
unfoldable pub evict_for : String → Option (String × Entry) → Pool → Pool × Answer
evict_for key none p = (with_admission unlocked p, refused pool_full)
evict_for key (some (k, e)) p =
    (with_admission (making_room key k e.number) (put k (mark_closing e) p), waiting)

unfoldable pub make_room : ℕ → String → ℕ → Pool → Pool × Answer
make_room max key now p =
    if leb max (length p.entries)
    then evict_for key (victim p.entries) p
    else create_entry key now p

-- What an acquire does once it has the admission lock.
unfoldable pub admit : ℕ → String → ℕ → Pool → Option Entry → Pool × Answer
admit max key now p none = make_room max key now p
admit max key now p (some e) =
    if e.closing
    then (with_admission unlocked p, refused entry_closing)
    else (with_admission unlocked p, found e.number)

unfoldable pub enter_admission : ℕ → String → ℕ → Pool → Pool × Answer
enter_admission max key now p =
    if is_open p.lifecycle
    then admit max key now p (lookup key p.entries)
    else (with_admission unlocked p, refused pool_closed)

abbrev pub add_lease : Entry → Entry
add_lease e = record e { leases = suc e.leases }

abbrev pub drop_lease : Entry → Entry
drop_lease e = record e { leases = e.leases - 1 }

abbrev pub use_at : ℕ → Entry → Entry
use_at now e = record e { last_used = now }

abbrev pub end_opening : Entry → Entry
end_opening e = record e { opening = false }

abbrev pub connect : Entry → Entry
connect e = record e { connected = true }

-- An acquire that has its entry, up to the await of its opening. An entry that has left the map is
-- leased for itself.
unfoldable pub lease_entry : String → Pool → Option Entry → Pool × Answer
lease_entry key p none = (p, if is_open p.lifecycle then waiting else refused pool_closed)
lease_entry key p (some e) =
    if e.closing
    then (p, refused entry_closing)
    else if is_open p.lifecycle
    then (put key (add_lease e) p, waiting)
    else (p, refused pool_closed)

unfoldable pub lease : String → ℕ → Pool → Pool × Answer
lease key number p = lease_entry key p (current key number p)

-- `e.adapter`, at the end of an acquire.
abbrev pub adapter_of : Entry → Answer
adapter_of e = if e.connected then adapter else refused not_connected

-- The end of an acquire, when the opening has settled well. An entry that an eviction has taken
-- off the map keeps its adapter.
unfoldable pub resume_entry : String → ℕ → Pool → Option Entry → Pool × Answer
resume_entry key now p none = (p, if is_open p.lifecycle then adapter else refused pool_closed)
resume_entry key now p (some e) =
    if is_open p.lifecycle
    then (put key (use_at now (end_opening e)) p, adapter_of e)
    else (put key (drop_lease (end_opening e)) p, refused pool_closed)

unfoldable pub resume : String → ℕ → ℕ → Pool → Pool × Answer
resume key number now p = resume_entry key now p (current key number p)

-- The opening of an entry ends, well or badly.
unfoldable pub connected_entry : String → Pool → Option Entry → Pool
connected_entry key p none = p
connected_entry key p (some e) = put key (connect e) p

unfoldable pub opening_done : String → ℕ → Pool → Pool
opening_done key number p = connected_entry key p (current key number p)

unfoldable pub opening_failed : String → ℕ → Pool → Pool
opening_failed key number p = delete_entry key number p

unfoldable pub release_entry : String → ℕ → Pool → Option Entry → Pool
release_entry key now p none = p
release_entry key now p (some e) = put key (use_at now (drop_lease e)) p

unfoldable pub release : String → ℕ → Pool → Pool
release key now p = release_entry key now p (lookup key p.entries)

abbrev pub references : List (String × Entry) → List (String × ℕ)
references entries = map (λ (e : String × Entry). (e.0, e.1.number)) entries

-- Whether the sweep closes an entry: `e.lastUsed > now - idleMs` keeps it. No time is before 0.
abbrev pub is_stale_entry : ℕ → ℕ → Entry → Bool
is_stale_entry idle_ms now e = is_idle e && leb (e.last_used + idle_ms) now

-- The loop of evictIdle up to the next await. An entry that has left the map failed to open, and is
-- passed over.
unfoldable pub sweep_one :
    ℕ → ℕ → ℕ → String → ℕ → List (String × ℕ) → Pool → Pool × Answer → Option Entry → Pool × Answer
sweep_one idle_ms now n key number rest p later none = later
sweep_one idle_ms now n key number rest p later (some e) =
    if is_stale_entry idle_ms now e
    then (
      with_admission (sweeping idle_ms now n key number rest) (put key (mark_closing e) p),
      waiting,
    )
    else later

unfoldable pub sweep_from : ℕ → ℕ → ℕ → List (String × ℕ) → Pool → Pool × Answer
sweep_from idle_ms now n [] p = (with_admission unlocked p, swept n)
sweep_from idle_ms now n ((key, number) ∷ rest) p =
    sweep_one idle_ms now n key number rest p (sweep_from idle_ms now n rest p)
      (current key number p)

unfoldable pub evict_idle : ℕ → ℕ → Pool → Pool × Answer
evict_idle idle_ms now p = sweep_from idle_ms now 0 (references p.entries) p

-- The loop of close up to the next await, and its end.
unfoldable pub mark_current : String → Pool → Option Entry → Pool
mark_current key p none = p
mark_current key p (some e) = put key (mark_closing e) p

unfoldable pub drain_from : List (String × ℕ) → Pool → Pool × Answer
drain_from [] p =
    (record { entries = []; lifecycle = shut; admission = unlocked; next = p.next }, done)
drain_from ((key, number) ∷ rest) p =
    (with_admission (draining key number rest) (mark_current key p (current key number p)), waiting)

unfoldable pub start_drain : Pool → Pool × Answer
start_drain p = drain_from (references p.entries) p

-- The first part of `close`.
unfoldable pub shut_down : Pool → Pool
shut_down p = record p { lifecycle = shutting }

-- The adapter that the holder of the lock waits for has closed, or its close has failed.
unfoldable pub victim_closed : ℕ → ℕ → Admission → Pool → Pool × Answer
victim_closed max now unlocked p = (p, done)
victim_closed max now (making_room key k number) p = make_room max key now (delete_entry k number p)
victim_closed max now (sweeping idle_ms since n k number rest) p =
    sweep_from idle_ms since (suc n) rest (delete_entry k number p)
victim_closed max now (draining k number rest) p = drain_from rest (delete_entry k number p)

unfoldable pub victim_failed : Admission → Pool → Pool
victim_failed unlocked p = p
victim_failed (making_room key k number) p = with_admission unlocked (delete_entry k number p)
victim_failed (sweeping idle_ms since n k number rest) p =
    with_admission unlocked (delete_entry k number p)
victim_failed (draining k number rest) p = (drain_from rest (delete_entry k number p)).0
