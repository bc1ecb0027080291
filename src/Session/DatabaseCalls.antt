-- ===== src/Session/DatabaseCalls.antt =====
-- packages/ketjs/src/server/sessionstore.ts: what the statements on ket_session leave under an id.
use ketjs.Common.{
  ℕ, ◌≤◌, String, Bool, true, false, ◌&&◌, not, ◌≡◌, refl, sym, ap, ◌∙◌, inl, inr, Option, none,
  some, [], ◌∷◌, str_eq, eq_iff, ltb, leb, ◌==◌, kept, if◌then◌else◌, Bool-cases, Option-cases,
  filter, any, arith,
}
use ketjs.Session.Record.{SessionRecord, SessionContext, in_context, live}
use ketjs.Session.Store.{answer_of, replaced}
use ketjs.Session.Database
use ketjs.Session.Database.{SessionTable, select_id, delete_where, update_where}

-- The primary key.
abbrev pub KeysApart : SessionTable → Type 0
KeysApart [] = Unit
KeysApart (r ∷ t) = (any (λ q. str_eq q.id r.id) t ≡ false) × KeysApart t

any-filter :
    (id : String) (p : SessionRecord → Bool) (t : SessionTable)
    → any (λ q. str_eq q.id id) t ≡ false
    → any (λ q. str_eq q.id id) (filter p t) ≡ false
any-filter id p [] h = refl
any-filter id p (r ∷ t) h = ground (arith, any-filter id p t)

pub filter-KeysApart :
    (p : SessionRecord → Bool) (t : SessionTable) → KeysApart t → KeysApart (filter p t)
filter-KeysApart p [] h = tt
filter-KeysApart p (r ∷ t) h = elim (Bool-cases (p r)) [
  | inl c ↦ rw c (any-filter r.id p t h.0, filter-KeysApart p t h.1)
  | inr c ↦ rw c (filter-KeysApart p t h.1)
]

select-absent :
    (id : String) (t : SessionTable) → any (λ q. str_eq q.id id) t ≡ false → select_id id t ≡ none
select-absent id [] h = refl
select-absent id (r ∷ t) h = ground (arith, select-absent id t)

pub absent-select :
    (id : String) (t : SessionTable) → select_id id t ≡ none → any (λ q. str_eq q.id id) t ≡ false
absent-select id [] h = refl
absent-select id (r ∷ t) h = ground (arith, absent-select id t)

pub select-filter :
    (id : String) (p : SessionRecord → Bool) (t : SessionTable)
    → KeysApart t
    → select_id id (filter p t) ≡ kept p (select_id id t)
select-filter id p [] h = refl
select-filter id p (r ∷ t) h = elim (Bool-cases (str_eq r.id id)) [
  | inl c ↦ elim (Bool-cases (p r)) [
    | inl d ↦ rw (d, c, d) refl
    | inr d ↦
        rw (d, c, d)
          (select-absent id (filter p t) (any-filter id p t (rw (sym ((eq_iff r.id id).0 c)) h.0)))
  ]
  | inr c ↦ elim (Bool-cases (p r)) [
    | inl d ↦ rw (d, c) (select-filter id p t h.1)
    | inr d ↦ rw (d, c) (select-filter id p t h.1)
  ]
]

-- An UPDATE that keeps the ids.
abbrev pub changed :
    (SessionRecord → Bool)
    → (SessionRecord → SessionRecord)
    → Option SessionRecord
    → Option SessionRecord
changed p f none = none
changed p f (some r) = some (if p r then f r else r)

module _ (p : SessionRecord → Bool) (f : SessionRecord → SessionRecord)
    (same_id : (r : SessionRecord) → (f r).id ≡ r.id) where
  updated_id : (r : SessionRecord) → (if p r then f r else r).id ≡ r.id
  updated_id r = ground (arith, same_id r)

  pub select-update :
      (id : String) (t : SessionTable)
      → select_id id (update_where p f t) ≡ changed p f (select_id id t)
  select-update id [] = refl
  select-update id (r ∷ t) = elim (Bool-cases (str_eq r.id id)) [
    | inl c ↦ rw (updated_id r, c) refl
    | inr c ↦ rw (updated_id r, c) (select-update id t)
  ]

  any-update :
      (id : String) (t : SessionTable)
      → any (λ q. str_eq q.id id) (update_where p f t) ≡ any (λ q. str_eq q.id id) t
  any-update id [] = refl
  any-update id (r ∷ t) = rw (updated_id r, any-update id t) refl

  pub update-KeysApart : (t : SessionTable) → KeysApart t → KeysApart (update_where p f t)
  update-KeysApart [] h = tt
  update-KeysApart (r ∷ t) h = (rw (updated_id r) (any-update r.id t ∙ h.0), update-KeysApart t h.1)

abbrev pub is_some : Option SessionRecord → Bool
is_some none = false
is_some (some r) = true

any-absent :
    (id : String) (q : SessionRecord → Bool) (t : SessionTable)
    → any (λ r. str_eq r.id id) t ≡ false
    → any (λ r. str_eq r.id id && q r) t ≡ false
any-absent id q [] h = refl
any-absent id q (r ∷ t) h = ground (arith, any-absent id q t)

-- Whether an UPDATE by id finds a row.
pub any-select :
    (id : String) (q : SessionRecord → Bool) (t : SessionTable)
    → KeysApart t
    → any (λ r. str_eq r.id id && q r) t ≡ is_some (kept q (select_id id t))
any-select id q [] h = refl
any-select id q (r ∷ t) h = elim (Bool-cases (str_eq r.id id)) [
  | inl c ↦
      let rest = any-absent id q t (rw (sym ((eq_iff r.id id).0 c)) h.0) in
      elim (Bool-cases (q r)) [ inl d ↦ rw (c, d) refl | inr d ↦ rw (c, d, rest) refl ]
  | inr c ↦ rw c (any-select id q t h.1)
]

some_inj : {r q : SessionRecord} → some r ≡ some q → r ≡ q
some_inj h = cc

pub select-id :
    (id : String) (t : SessionTable) (r : SessionRecord)
    → select_id id t ≡ some r
    → str_eq r.id id ≡ true
select-id id [] r h = cc
select-id id (q ∷ t) r h = elim (Bool-cases (str_eq q.id id)) [
  | inl c ↦ let same : q ≡ r = some_inj (rw c at h) in rw (← same) c
  | inr c ↦ select-id id t r (rw c at h)
]

-- An UPDATE of one id with another test, seen at an instant.
pub view-update :
    (id : String) (q : SessionRecord → Bool) (f : SessionRecord → SessionRecord)
    → ((r : SessionRecord) → (f r).id ≡ r.id)
    → (t : SessionTable) (at : ℕ) (k : String)
    → live at (select_id k (update_where (λ r. str_eq r.id id && q r) f t)) ≡ (
        if str_eq id k
        then replaced f at (kept q (select_id id t)) (live at (select_id k t))
        else live at (select_id k t))
view-update id q f same t at k =
    rw (select-update (λ r. str_eq r.id id && q r) f same k t) (elim (Bool-cases (str_eq id k)) [
      | inl c ↦ rw (c, (eq_iff id k).0 c) (one (select_id k t) (select-id k t))
      | inr c ↦ rw c (other c (select_id k t) (select-id k t))
    ])
  where
    one :
        (o : Option SessionRecord)
        → ((r : SessionRecord) → o ≡ some r → str_eq r.id k ≡ true)
        → live at (changed (λ r. str_eq r.id k && q r) f o) ≡ replaced f at (kept q o) (live at o)
    one none h = refl
    one (some r) h = elim (Bool-cases (q r)) [
      | inl d ↦ rw (h r refl, d) refl
      | inr d ↦ rw (h r refl, d) refl
    ]

    other :
        str_eq id k ≡ false
        → (o : Option SessionRecord) → ((r : SessionRecord) → o ≡ some r → str_eq r.id k ≡ true)
        → live at (changed (λ r. str_eq r.id id && q r) f o) ≡ live at o
    other c none h = refl
    other c (some r) h =
        let apart : str_eq r.id id ≡ false =
          ground (arith, c, h r refl, eq_iff r.id id, eq_iff r.id k, eq_iff id k) in
        rw apart refl

pub kept-live :
    (now : ℕ) (o : Option SessionRecord) → kept (λ r. ltb now r.expires_at) o ≡ live now o
kept-live now none = refl
kept-live now (some r) = refl

pub kept-live_and :
    (now n : ℕ) (o : Option SessionRecord)
    → kept (λ r. r.revision == n && ltb now r.expires_at) o
      ≡ kept (λ r. r.revision == n) (live now o)
kept-live_and now n none = refl
kept-live_and now n (some r) = ground arith

answered :
    (e : ℕ) (o : Option SessionRecord) → (if is_some o then some e else none) ≡ answer_of (λ _. e) o
answered e none = refl
answered e (some r) = refl

pub read_answer :
    (now : ℕ) (id : String) (t : SessionTable)
    → (Database.read now id t).1 ≡ live now (select_id id t)
unfolding Database.read
read_answer now id t = elim (Option-cases (select_id id t)) [
  | inl e ↦ rw (e, Database.read) refl
  | inr (r, e) ↦ rw (e, Database.read) (ground arith)
]

module _ (now : ℕ) (id : String) (t : SessionTable) (v : KeysApart t) where
  pub read_Valid : KeysApart (Database.read now id t).0
  unfolding Database.read
  read_Valid = elim (Option-cases (select_id id t)) [
    | inl e ↦ rw (e, Database.read) v
    | inr (r, e) ↦ elim (Bool-cases (leb r.expires_at now)) [
      | inl a ↦ rw (e, a, Database.read) (filter-KeysApart (λ q. not (str_eq q.id id)) t v)
      | inr a ↦ rw (e, a, Database.read) v
    ]
  ]

  pub read_keeps :
      (at : ℕ) (k : String)
      → now ≤ at
      → live at (select_id k (Database.read now id t).0) ≡ live at (select_id k t)
  unfolding Database.read
  read_keeps at k le = elim (Option-cases (select_id id t)) [
    | inl e ↦ rw (e, Database.read) refl
    | inr (r, e) ↦ elim (Bool-cases (leb r.expires_at now)) [
      | inr a ↦ rw (e, a, Database.read) refl
      | inl a ↦
          rw (e, a, Database.read, select-filter k (λ q. not (str_eq q.id id)) t v)
            (dead r e a (select_id k t) refl)
    ]
  ]
    where
      dead :
          (r : SessionRecord)
          → select_id id t ≡ some r
          → leb r.expires_at now ≡ true
          → (o : Option SessionRecord) → select_id k t ≡ o
          → live at (kept (λ q. not (str_eq q.id id)) o) ≡ live at o
      dead r e a none h = refl
      dead r e a (some q) h = elim (Bool-cases (str_eq q.id id)) [
        | inr c ↦ rw c refl
        | inl c ↦
            let same : k ≡ id =
              sym ((eq_iff q.id k).0 (select-id k t q h)) ∙ (eq_iff q.id id).0 c in
            let one : some q ≡ some r = sym h ∙ ap (λ x. select_id x t) same ∙ e in
            let eq : q ≡ r = some_inj one in rw c (rw eq (ground (arith, a)))
      ]

  pub touch_answer :
      (e : ℕ) → (Database.touch now id e t).1 ≡ answer_of (λ _. e) (live now (select_id id t))
  unfolding Database.touch
  touch_answer e =
      rw (any-select id (λ r. ltb now r.expires_at) t v, kept-live now (select_id id t))
        (answered e (live now (select_id id t)))

  pub update_answer :
      (n : ℕ) (c : SessionContext)
      → (Database.update_context now id n c t).1
        ≡ answer_of (in_context c) (kept (λ r. r.revision == n) (live now (select_id id t)))
  unfolding Database.update_context
  update_answer n c =
      rw
        (
          any-select id (λ r. r.revision == n && ltb now r.expires_at) t v,
          select-update (λ r. str_eq r.id id && (r.revision == n && ltb now r.expires_at))
              (in_context c) (λ r. refl) id t,
          ← kept-live_and now n (select_id id t),
        )
        (reread (λ r. r.revision == n && ltb now r.expires_at) (select_id id t) (select-id id t))
    where
      reread :
          (q : SessionRecord → Bool) (o : Option SessionRecord)
          → ((r : SessionRecord) → o ≡ some r → str_eq r.id id ≡ true)
          → (if is_some (kept q o)
              then changed (λ r. str_eq r.id id && q r) (in_context c) o
              else none)
            ≡ answer_of (in_context c) (kept q o)
      reread q none h = refl
      reread q (some r) h = elim (Bool-cases (q r)) [
        | inl d ↦ rw (d, h r refl) refl
        | inr d ↦ rw d refl
      ]
