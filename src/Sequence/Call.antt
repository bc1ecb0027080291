-- ===== src/Sequence/Call.antt =====
-- packages/ketjs/src/server/sequence.ts: one call with no other caller at work.
use ketjs.Common.{
  ℕ, suc, ◌+◌, String, true, false, ◌≡◌, refl, ap, Option, none, some, [], ◌∷◌, ◌==◌, lookup,
  has_key, insert, arith,
}
use ketjs.Sequence.{
  Sequences, SequenceOptions, number, is_name, sequence_key, first_number, insert_next, move_next,
  take_number, allocate, peek_sequence_number, next_sequence_number,
}

absent-has_key : (id : String) (t : Sequences) → lookup id t ≡ none → has_key id t ≡ false
absent-has_key id [] h = refl
absent-has_key id ((k, n) ∷ t) h = ground (arith, absent-has_key id t)

equal_self : (n : ℕ) → (n == n) ≡ true
equal_self n = ground arith

abbrev shown_number : ℕ → Option ℕ → ℕ
shown_number start none = start
shown_number start (some k) = k

take_alone :
    (id : String) (start : ℕ) (row : Option ℕ) (t : Sequences)
    → lookup id t ≡ row
    → take_number id start row t
      ≡ (insert id (shown_number start row + 1) t, some (shown_number start row))
unfolding take_number insert_next move_next
take_alone id start none t e = rw (absent-has_key id t e, insert_next) refl
take_alone id start (some k) t e = rw (e, equal_self k, move_next) refl

-- The first round settles it.
allocate_alone :
    (id : String) (start n : ℕ) (t : Sequences)
    → let shown = shown_number start (lookup id t) in
      allocate (λ _ u. u) id start (suc n) t ≡ (insert id (shown + 1) t, number shown)
unfolding allocate
allocate_alone id start n t =
    let first = take_alone id start (lookup id t) t refl in
    rw (first, allocate)
      (ap (λ (r : Sequences × Option ℕ). (r.0, number (shown_number start (lookup id t)))) first)

shown_row :
    (start : ℕ) (row : Option ℕ) → shown_number start row ≡ elim row [ none ↦ start | some k ↦ k ]
shown_row start none = refl
shown_row start (some k) = refl

-- With no other caller, a call with a proper name answers in its first round, with the number that
-- a dry run shows before it, and leaves the row one above; the dry run leaves the table.
pub next_sequence_number_lem :
    (name : String) (o : SequenceOptions) (t : Sequences)
    → is_name true name ≡ true
    → let shown = peek_sequence_number name o t in
      (next_sequence_number (λ _ u. u) name (record o { dry_run = true }) t ≡ (t, number shown))
      × (next_sequence_number (λ _ u. u) name (record o { dry_run = false }) t
          ≡ (insert (sequence_key name o) (shown + 1) t, number shown))
unfolding next_sequence_number peek_sequence_number sequence_key
next_sequence_number_lem name o t v =
    let key = sequence_key name o in
    (
      rw (v, next_sequence_number) refl,
      rw (v, next_sequence_number, ← shown_row (first_number o) (lookup key t))
          (allocate_alone key (first_number o) 63 t),
    )
