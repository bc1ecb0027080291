-- ===== src/Pool/Victim.antt =====
-- packages/ketjs/src/data/pool.ts: which entry an eviction closes.
use ketjs.Common.{
  ℕ, ◌≤◌, String, true, false, ◌≡◌, refl, inl, inr, Option, none, some, List, [], ◌∷◌, All, All-In,
  In, here, there, Bool-cases, ltb, leb, ◌⊎◌, ◌↔◌, sym, length, lookup, arith,
}
use ketjs.Pool.{Entry, Pool, refused, pool_full}
use ketjs.Pool.Operations.{
  is_idle, older, oldest_from, victim, is_open, enter_admission, admit, make_room, evict_for,
  create_entry,
}

-- None of the idle entries was used before the entry; if there is no entry, none is idle.
abbrev pub IsOldest : Option (String × Entry) → List (String × Entry) → Type 0
IsOldest none entries = All (λ (x : String × Entry). is_idle x.1 ≡ false) entries
IsOldest (some o) entries =
    All (λ (x : String × Entry). is_idle x.1 ≡ true → o.1.last_used ≤ x.1.last_used) entries

-- An entry so far, if it is one, is not later than the entry at the end.
abbrev NotLater : Option (String × Entry) → Option (String × Entry) → Type 0
NotLater none r = Unit
NotLater (some o) none = ⊥
NotLater (some o) (some r) = r.1.last_used ≤ o.1.last_used

older-NotLater :
    (o : Option (String × Entry)) (x : String × Entry) (r : Option (String × Entry))
    → NotLater (older o x) r
    → NotLater o r × NotLater (some x) r
older-NotLater none x none h = absurd h
older-NotLater none x (some r) h = (tt, h)
older-NotLater (some o) x none h = elim (Bool-cases (ltb x.1.last_used o.1.last_used)) [
  | inl c ↦ absurd (rw c at h)
  | inr c ↦ absurd (rw c at h)
]
older-NotLater (some o) x (some r) h = elim (Bool-cases (ltb x.1.last_used o.1.last_used)) [
  | inl c ↦ (ground (arith, c, rw c at h), rw c at h)
  | inr c ↦ (rw c at h, ground (arith, c, rw c at h))
]

oldest_from-NotLater :
    (o : Option (String × Entry)) (entries : List (String × Entry))
    → NotLater o (oldest_from o entries)
unfolding oldest_from
oldest_from-NotLater none [] = tt
oldest_from-NotLater (some o) [] = ground arith
oldest_from-NotLater o (x ∷ entries) = elim (Bool-cases (is_idle x.1)) [
  | inl c ↦
      rw c
        (older-NotLater o x (oldest_from (older o x) entries)
          (oldest_from-NotLater (older o x) entries)).0
  | inr c ↦ rw c (oldest_from-NotLater o entries)
]

oldest_from-IsOldest :
    (o : Option (String × Entry)) (entries : List (String × Entry))
    → IsOldest (oldest_from o entries) entries
unfolding oldest_from
oldest_from-IsOldest none [] = tt
oldest_from-IsOldest (some o) [] = tt
oldest_from-IsOldest o (x ∷ entries) = elim (Bool-cases (is_idle x.1)) [
  | inl c ↦ rw c (
      with_idle (oldest_from (older o x) entries)
        (older-NotLater o x (oldest_from (older o x) entries)
          (oldest_from-NotLater (older o x) entries)).1
        (oldest_from-IsOldest (older o x) entries))
  | inr c ↦ rw c (with_held c (oldest_from o entries) (oldest_from-IsOldest o entries))
]
  where
    with_idle :
        (r : Option (String × Entry))
        → NotLater (some x) r
        → IsOldest r entries
        → IsOldest r (x ∷ entries)
    with_idle none n h = absurd n
    with_idle (some r) n h = ((λ idle. n), h)

    with_held :
        is_idle x.1 ≡ false
        → (r : Option (String × Entry)) → IsOldest r entries
        → IsOldest r (x ∷ entries)
    with_held c none h = (c, h)
    with_held c (some r) h = ((λ idle. cc), h)

oldest_from-In :
    (o : Option (String × Entry)) (entries : List (String × Entry)) (x : String × Entry)
    → oldest_from o entries ≡ some x
    → (o ≡ some x) ⊎ (In x entries × (is_idle x.1 ≡ true))
unfolding oldest_from
oldest_from-In o [] x h = inl h
oldest_from-In o (y ∷ entries) x h = elim (Bool-cases (is_idle y.1)) [
  | inr c ↦ elim (oldest_from-In o entries x (rw c at h)) [
    | inl e ↦ inl e
    | inr (m, i) ↦ inr (there m, i)
  ]
  | inl c ↦ elim (oldest_from-In (older o y) entries x (rw c at h)) [
    | inl e ↦ older_one c o e
    | inr (m, i) ↦ inr (there m, i)
  ]
]
  where
    some_eq : {v w : String × Entry} → some v ≡ some w → v ≡ w
    some_eq h = cc

    picked : is_idle y.1 ≡ true → y ≡ x → In x (y ∷ entries) × (is_idle x.1 ≡ true)
    picked c e = (here (sym e), rw (← e) c)

    older_one :
        is_idle y.1 ≡ true
        → (o : Option (String × Entry)) → older o y ≡ some x
        → (o ≡ some x) ⊎ (In x (y ∷ entries) × (is_idle x.1 ≡ true))
    older_one c none e = inr (picked c (some_eq e))
    older_one c (some z) e = elim (Bool-cases (ltb y.1.last_used z.1.last_used)) [
      | inl d ↦ inr (picked c (some_eq (rw d at e)))
      | inr d ↦ inl (rw d at e)
    ]

-- The entry that is evicted is an idle one, used no later than any other idle one; no entry is
-- evicted only if none is idle.
pub victim_lem :
    (entries : List (String × Entry))
    → IsOldest (victim entries) entries
      × ((x : String × Entry) → victim entries ≡ some x → In x entries × (is_idle x.1 ≡ true))
unfolding victim
victim_lem entries = (
  oldest_from-IsOldest none entries,
  λ x h. elim (oldest_from-In none entries x h) [ inl e ↦ cc e | inr m ↦ m ],
)

-- An acquire of a database that is not open, in an open pool, is refused because the pool is full
-- exactly if the pool holds its number of databases and each is leased, being opened or being
-- closed.
pub enter_admission-full :
    (max : ℕ) (key : String) (now : ℕ) (p : Pool)
    → is_open p.lifecycle ≡ true
    → lookup key p.entries ≡ none
    → ((enter_admission max key now p).1 ≡ refused pool_full)
      ↔ ((max ≤ length p.entries) × All (λ (x : String × Entry). is_idle x.1 ≡ false) p.entries)
unfolding enter_admission admit make_room evict_for create_entry
enter_admission-full max key now p o a =
    rw (o, a)
      (elim (Bool-cases (leb max (length p.entries))) [
        | inr c ↦ rw (c, o) ((λ h. cc), λ h. ground (arith, c, h.0))
        | inl c ↦ rw c (of c (victim p.entries) refl)
      ])
  where
    of :
        leb max (length p.entries) ≡ true
        → (v : Option (String × Entry)) → victim p.entries ≡ v
        → ((evict_for key v p).1 ≡ refused pool_full)
          ↔ ((max ≤ length p.entries) × All (λ (x : String × Entry). is_idle x.1 ≡ false) p.entries)
    of c none e =
        let held = rw e at (victim_lem p.entries).0 in ((λ h. (ground (arith, c), held)), λ h. refl)
    of c (some (k, x)) e =
        ((λ h. cc), λ h. let (m, i) = (victim_lem p.entries).1 (k, x) e in cc (All-In _ m h.1, i))
