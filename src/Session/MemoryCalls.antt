-- ===== src/Session/MemoryCalls.antt =====
-- packages/ketjs/src/server/sessionstore.ts: reading and changing one
-- record of the memory store.
use ketjs.Common.{
  ℕ, ◌≤◌, String, ◌||◌, not, ◌≡◌, refl, inl, inr, none, str_eq, eq_iff, ◌==◌, kept, if◌then◌else◌,
  Bool-cases, Option-cases, lookup, lookup-insert, IsMap, insert-IsMap, filter-IsMap, lookup-filter,
  arith,
}
use ketjs.Session.Record.{SessionContext, alive, in_context, live}
use ketjs.Session.Store.{answer_of, replaced}
use ketjs.Session.Memory
use ketjs.Session.Memory.{Rows, delete_rows, delete_row}

-- An entry that was deleted.
pub lookup-delete_row :
    (id k : String) (rows : Rows)
    → IsMap rows
    → lookup k (delete_row id rows) ≡ (if str_eq id k then none else lookup k rows)
lookup-delete_row id k rows v =
    rw (lookup-filter k (λ e. not (str_eq e.0 id)) rows v)
      (ground (arith, eq_iff id k, eq_iff k id))

pub read_keeps :
    (now : ℕ) (id : String) (rows : Rows) (at : ℕ) (k : String)
    → IsMap rows
    → now ≤ at
    → live at (lookup k (Memory.read now id rows).0) ≡ live at (lookup k rows)
unfolding Memory.read
read_keeps now id rows at k v le = elim (Option-cases (lookup id rows)) [
  | inl e ↦ rw (e, Memory.read) refl
  | inr (r, e) ↦ elim (Bool-cases (alive r now)) [
    | inl a ↦ rw (e, a, Memory.read) refl
    | inr a ↦
        rw (e, a, Memory.read, lookup-delete_row id k rows v) (ground (arith, e, a, eq_iff id k))
  ]
]

pub read_answer :
    (now : ℕ) (id : String) (rows : Rows) → (Memory.read now id rows).1 ≡ live now (lookup id rows)
unfolding Memory.read
read_answer now id rows = elim (Option-cases (lookup id rows)) [
  | inl e ↦ rw (e, Memory.read) refl
  | inr (r, e) ↦ elim (Bool-cases (alive r now)) [
    | inl a ↦ rw (e, a, Memory.read) refl
    | inr a ↦ rw (e, a, Memory.read) refl
  ]
]

pub read_Valid :
    (now : ℕ) (id : String) (rows : Rows) → IsMap rows → IsMap (Memory.read now id rows).0
unfolding Memory.read
read_Valid now id rows v = elim (Option-cases (lookup id rows)) [
  | inl e ↦ rw (e, Memory.read) v
  | inr (r, e) ↦ elim (Bool-cases (alive r now)) [
    | inl a ↦ rw (e, a, Memory.read) v
    | inr a ↦ rw (e, a, Memory.read) (filter-IsMap (λ x. not (str_eq x.0 id)) rows v)
  ]
]

-- A live record is replaced, or the call does nothing.
module _ (now : ℕ) (id : String) (rows : Rows) (e : ℕ) where
  pub touch_Valid : IsMap rows → IsMap (Memory.touch now id e rows).0
  unfolding Memory.touch
  touch_Valid v = elim (Option-cases (lookup id rows)) [
    | inl n ↦ rw (n, Memory.touch) v
    | inr (r, s) ↦ elim (Bool-cases (alive r now)) [
      | inl a ↦ rw (s, a, Memory.touch) (insert-IsMap id (record r { expires_at = e }) rows v)
      | inr a ↦ rw (s, a, Memory.touch) v
    ]
  ]

  pub touch_answer :
      IsMap rows → (Memory.touch now id e rows).1 ≡ answer_of (λ _. e) (live now (lookup id rows))
  unfolding Memory.touch
  touch_answer v = elim (Option-cases (lookup id rows)) [
    | inl n ↦ rw (n, Memory.touch) refl
    | inr (r, s) ↦ elim (Bool-cases (alive r now)) [
      | inl a ↦ rw (s, a, Memory.touch) refl
      | inr a ↦ rw (s, a, Memory.touch) refl
    ]
  ]

  pub touched :
      (at : ℕ) (k : String)
      → live at (lookup k (Memory.touch now id e rows).0) ≡ (
          if str_eq id k
          then replaced
              (λ r. record r { expires_at = e })
              at
              (live now (lookup id rows))
              (live at (lookup k rows))
          else live at (lookup k rows))
  unfolding Memory.touch
  touched at k = elim (Option-cases (lookup id rows)) [
    | inl n ↦ rw (n, Memory.touch) (ground arith)
    | inr (r, s) ↦ elim (Bool-cases (alive r now)) [
      | inl a ↦
          rw (s, a, Memory.touch, lookup-insert id k (record r { expires_at = e }) rows)
            (ground arith)
      | inr a ↦ rw (s, a, Memory.touch) (ground arith)
    ]
  ]

module _ (now : ℕ) (id : String) (rows : Rows) (n : ℕ) (c : SessionContext) where
  pub update_Valid : IsMap rows → IsMap (Memory.update_context now id n c rows).0
  unfolding Memory.update_context
  update_Valid v = elim (Option-cases (lookup id rows)) [
    | inl e ↦ rw (e, Memory.update_context) v
    | inr (r, s) ↦ elim (Bool-cases (not (alive r now) || not (r.revision == n))) [
      | inl a ↦ rw (s, a, Memory.update_context) v
      | inr a ↦ rw (s, a, Memory.update_context) (insert-IsMap id (in_context c r) rows v)
    ]
  ]

  pub update_answer :
      (Memory.update_context now id n c rows).1
      ≡ answer_of (in_context c) (kept (λ r. r.revision == n) (live now (lookup id rows)))
  unfolding Memory.update_context
  update_answer = elim (Option-cases (lookup id rows)) [
    | inl e ↦ rw (e, Memory.update_context) refl
    | inr (r, s) ↦ rw (s, Memory.update_context) (ground arith)
  ]

  pub updated :
      (at : ℕ) (k : String)
      → live at (lookup k (Memory.update_context now id n c rows).0) ≡ (
          if str_eq id k
          then replaced
              (in_context c)
              at
              (kept (λ r. r.revision == n) (live now (lookup id rows)))
              (live at (lookup k rows))
          else live at (lookup k rows))
  unfolding Memory.update_context
  updated at k = elim (Option-cases (lookup id rows)) [
    | inl e ↦ rw (e, Memory.update_context) (ground arith)
    | inr (r, s) ↦ elim (Bool-cases (not (alive r now) || not (r.revision == n))) [
      | inl a ↦ rw (s, a, Memory.update_context) (ground (arith, a))
      | inr a ↦
          rw (s, a, Memory.update_context, lookup-insert id k (in_context c r) rows)
            (ground (arith, a))
    ]
  ]
