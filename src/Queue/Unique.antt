-- ===== src/Queue/Unique.antt =====
-- packages/ketjs/src/server/queue.ts: the primary key and the unique index as a property of the
-- table, and what an INSERT, a DELETE and an UPDATE of one row do to it.
use ketjs.Common.{
  String, Bool, true, false, ◌&&◌, ◌||◌, ◌≡◌, refl, sym, ◌∙◌, inl, inr, Option, none, some, [], ◌∷◌,
  ◌++◌, arith, str_eq, eq_iff, Bool-cases, any, filter, All, All-append, All-filter, All-In, In,
  here, there, Any-false,
}
use ketjs.Queue.Row.{
  Job, Table, is_active, coalesce, sql_eq, same_slot, clash, insert_row, update_row, find_row,
}

-- No two rows share an id, nor an entry of the unique index.
abbrev pub NoClash : Table → Type 0
NoClash [] = Unit
NoClash (r ∷ t) = All (λ q. clash r q ≡ false) t × NoClash t

pub str_eq_comm : (s t : String) → str_eq s t ≡ str_eq t s
str_eq_comm s t = ground (arith, eq_iff s t, eq_iff t s)

sql_eq_comm : (a b : Option String) → sql_eq a b ≡ sql_eq b a
sql_eq_comm none none = refl
sql_eq_comm none (some b) = refl
sql_eq_comm (some a) none = refl
sql_eq_comm (some a) (some b) = str_eq_comm a b

pub clash_comm : (a b : Job) → clash a b ≡ clash b a
unfolding clash same_slot
clash_comm a b =
    rw
      (
        str_eq_comm a.id b.id,
        str_eq_comm a.job b.job,
        sql_eq_comm a.unique_key b.unique_key,
        str_eq_comm (coalesce a.scope.company) (coalesce b.scope.company),
      )
      (and_swap (is_active a.state) (is_active b.state) _ _)
  where
    and_swap : (x y c d : Bool) → (c || (x && (y && d))) ≡ (c || (y && (x && d)))
    and_swap true true c d = refl
    and_swap true false c d = refl
    and_swap false true c d = refl
    and_swap false false c d = refl

pub clash-id : (a b : Job) → clash a b ≡ false → str_eq a.id b.id ≡ false
unfolding clash
clash-id a b h = ground arith

-- Among rows that do not clash, an id names one row.
pub id_unique :
    (id : String) (t : Table) {r q : Job}
    → NoClash t
    → In r t
    → In q t
    → str_eq r.id id ≡ true
    → str_eq q.id id ≡ true
    → q ≡ r
id_unique id [] h m n a b = elim m [ ]
id_unique id (x ∷ t) h (here e) (here k) a b = k ∙ sym e
id_unique id (x ∷ t) {r} {q} h (here e) (there m) a b = absurd (
    ground (
      arith,
      eq_iff r.id id,
      eq_iff q.id id,
      eq_iff r.id q.id,
      clash-id r q (rw e (All-In (λ y. clash x y ≡ false) m h.0)),
    ))
id_unique id (x ∷ t) {r} {q} h (there n) (here k) a b = absurd (
    ground (
      arith,
      eq_iff r.id id,
      eq_iff q.id id,
      eq_iff q.id r.id,
      clash-id q r (rw k (All-In (λ y. clash x y ≡ false) n h.0)),
    ))
id_unique id (x ∷ t) h (there n) (there m) a b = id_unique id t h.1 n m a b

pub find_row-some :
    (p : Job → Bool) (t : Table) {r : Job} → find_row p t ≡ some r → In r t × (p r ≡ true)
unfolding find_row
find_row-some p [] e = cc
find_row-some p (x ∷ t) e = elim (Bool-cases (p x)) [
  | inl k ↦ first (rw (k, find_row) at e) k
  | inr k ↦ let (m, q) = find_row-some p t (rw (k, find_row) at e) in (there m, q)
]
  where
    first : {r : Job} → some x ≡ some r → p x ≡ true → In r (x ∷ t) × (p r ≡ true)
    first {r} e k = let same : r ≡ x = cc in (here same, rw same k)

-- What a transition leaves alone, and that it makes no inactive row active.
pub record Quiet (r s : Job) : Type 0 where
  pub id : s.id ≡ r.id
  pub job : s.job ≡ r.job
  pub unique_key : s.unique_key ≡ r.unique_key
  pub scope : s.scope ≡ r.scope
  pub active : is_active s.state ≡ true → is_active r.state ≡ true

pub clash-Quiet : (r s q : Job) → Quiet r s → clash r q ≡ false → clash s q ≡ false
unfolding clash same_slot
clash-Quiet r s q k h =
    rw (k.id, k.job, k.unique_key, k.scope)
      (weaken (is_active s.state) (is_active r.state) _ _ k.active h)
  where
    weaken :
        (x y c d : Bool) → (x ≡ true → y ≡ true) → (c || (y && d)) ≡ false → (c || (x && d)) ≡ false
    weaken x y true d f e = cc
    weaken false y false d f e = refl
    weaken true true false d f e = e
    weaken true false false d f e = cc (f refl)

pub insert_row-NoClash : (j : Job) (t : Table) → NoClash t → NoClash (insert_row j t).0
unfolding insert_row
insert_row-NoClash j t h = elim (Bool-cases (any (λ r. clash r j) t)) [
  | inl e ↦ rw e h
  | inr e ↦ rw e (at_end t h (Any-false (λ r. clash r j) t e))
]
  where
    at_end : (t : Table) → NoClash t → All (λ r. clash r j ≡ false) t → NoClash (t ++ j ∷ [])
    at_end [] n a = (tt, tt)
    at_end (r ∷ t) n a =
        (All-append (λ q. clash r q ≡ false) t (j ∷ []) n.0 (a.0, tt), at_end t n.1 a.1)

pub filter-NoClash : (p : Job → Bool) (t : Table) → NoClash t → NoClash (filter p t)
filter-NoClash p [] h = tt
filter-NoClash p (r ∷ t) h = elim (Bool-cases (p r)) [
  | inl e ↦ rw e (All-filter (λ q. clash r q ≡ false) p t h.0, filter-NoClash p t h.1)
  | inr e ↦ rw e (filter-NoClash p t h.1)
]

-- An UPDATE of one row, where what it writes clashes with no row that satisfies `Ok`.
module _ (id : String) (p : Job → Bool) (f : Job → Job) (Ok : Job → Type 0)
    (calm : (r q : Job)
      → (str_eq r.id id && p r) ≡ true
      → Ok r
      → Ok q
      → clash r q ≡ false
      → clash (f r) q ≡ false) where
  beside :
      (x : Job) (t : Table)
      → Ok x
      → All Ok t
      → All (λ q. clash x q ≡ false) t
      → All (λ q. clash x q ≡ false) (update_row id p f t).0
  unfolding update_row
  beside x [] ox o h = tt
  beside x (r ∷ t) ox o h = elim (Bool-cases (str_eq r.id id && p r)) [
    | inl e ↦
        rw e (clash_comm x (f r) ∙ calm r x e o.0 ox (clash_comm r x ∙ h.0), beside x t ox o.1 h.1)
    | inr e ↦ rw e (h.0, beside x t ox o.1 h.1)
  ]

  -- No second row has the id.
  update_row_absent :
      (x : Job) (t : Table)
      → str_eq x.id id ≡ true
      → All (λ q. clash x q ≡ false) t
      → (update_row id p f t).0 ≡ t
  unfolding update_row
  update_row_absent x [] e h = refl
  update_row_absent x (r ∷ t) e h = ground (
    arith,
    update_row_absent x t e h.1,
    clash-id x r h.0,
    eq_iff x.id id,
    eq_iff r.id id,
    eq_iff x.id r.id,
  )

  written :
      (r : Job) (t : Table)
      → (str_eq r.id id && p r) ≡ true
      → Ok r
      → All Ok t
      → All (λ q. clash r q ≡ false) t
      → All (λ q. clash (f r) q ≡ false) t
  written r [] e k o h = tt
  written r (q ∷ t) e k o h = (calm r q e k o.0 h.0, written r t e k o.1 h.1)

  pub update_row-NoClash : (t : Table) → All Ok t → NoClash t → NoClash (update_row id p f t).0
  unfolding update_row
  update_row-NoClash [] o h = tt
  update_row-NoClash (r ∷ t) o h = elim (Bool-cases (str_eq r.id id && p r)) [
    | inl e ↦
        rw (e, update_row_absent r t (and_left (str_eq r.id id) (p r) e) h.0)
          (written r t e o.0 o.1 h.0, h.1)
    | inr e ↦ rw e (beside r t o.0 o.1 h.0, update_row-NoClash t o.1 h.1)
  ]
    where
      and_left : (a b : Bool) → (a && b) ≡ true → a ≡ true
      and_left true b k = refl
      and_left false b k = k
