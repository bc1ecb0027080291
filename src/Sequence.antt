-- ===== src/Sequence.antt =====
-- Document numbers, packages/ketjs/src/server/sequence.ts. The table ket_sequence is a map from a
-- key to the next number; a statement of the file is a function on it. Steps is the interleaving of
-- the callers, Numbers what they are given, and Call what one call does.
pub mod Steps
pub mod Numbers
pub mod Call
mod Tests
use Prim.Native.Char.{code}
use ketjs.Common.{
  ℕ, zero, suc, ◌+◌, ◌*◌, String, Bool, true, false, ◌&&◌, ◌||◌, Option, none, some, List, [], ◌∷◌,
  ltb, leb, ◌==◌, if◌then◌else◌, lookup, has_key, insert, template,
}

abbrev pub Sequences : Type 0
Sequences = List (String × ℕ)

pub record SequenceOptions : Type 0 where
  pub start : ℕ
  pub shared : Bool
  pub company : Option String
  pub dry_run : Bool

abbrev is_lower : ℕ → Bool
is_lower c = leb b'a' c && leb c b'z'

abbrev is_name_tail : ℕ → Bool
is_name_tail c = is_lower c || ((leb b'0' c && leb c b'9') || c == b'_')

-- The expression `NAME`: words of lower-case letters, digits and `_`, each after a letter, with dots
-- between them. The flag says that a word starts here.
unfoldable pub is_name : Bool → String → Bool
is_name first String.[] = if first then false else true
is_name true (String.◌∷◌ c s) = is_lower (code c) && is_name false s
is_name false (String.◌∷◌ c s) =
    (code c == b'.' || is_name_tail (code c)) && is_name (code c == b'.') s

-- `sequenceKey`
unfoldable pub sequence_key : String → SequenceOptions → String
sequence_key name o =
    if o.shared
    then template ("-\n" ∷ name ∷ [])
    else template (elim (o.company) [ none ↦ "-" | some c ↦ c ] ∷ "\n" ∷ name ∷ [])

-- `Math.max(1, start)`
abbrev pub first_number : SequenceOptions → ℕ
first_number o = if ltb o.start 1 then 1 else o.start

-- `INSERT ... ON CONFLICT DO NOTHING`
unfoldable pub insert_next : String → ℕ → Sequences → Sequences × Bool
insert_next id next t = if has_key id t then (t, false) else (insert id next t, true)

-- `UPDATE ket_sequence SET next = ... WHERE id = ... AND next = ...`
unfoldable pub move_next : String → ℕ → ℕ → Sequences → Sequences × Bool
move_next id current next t = elim (lookup id t) [
  | none ↦ (t, false)
  | some n ↦ if n == current then (insert id next t, true) else (t, false)
]

-- One round of the loop after its read; the number is absent if the round goes on to the next.
unfoldable pub take_number : String → ℕ → Option ℕ → Sequences → Sequences × Option ℕ
take_number id start none t =
    let (u, inserted) = insert_next id (start + 1) t in (u, if inserted then some start else none)
take_number id start (some current) t =
    let (u, moved) = move_next id current (current + 1) t in
    (u, if moved then some current else none)

pub data Outcome : Type 0 where
  number : ℕ → Outcome
  bad_name contended : Outcome

-- The loop, with `n` rounds left; `other` is what the other callers do before each statement.
unfoldable pub allocate :
    (ℕ → Sequences → Sequences) → String → ℕ → ℕ → Sequences → Sequences × Outcome
allocate other id start zero t = (t, contended)
allocate other id start (suc n) t =
    let before = other (n * 2 + 1) t in
    let tried = take_number id start (lookup id before) (other (n * 2) before) in
    elim (tried.1) [ some k ↦ (tried.0, number k) | none ↦ allocate other id start n tried.0 ]

-- `(await read()) ?? start`, and `peekSequenceNumber`.
unfoldable pub peek_sequence_number : String → SequenceOptions → Sequences → ℕ
peek_sequence_number name o t = elim (lookup (sequence_key name o) t) [
  | none ↦ first_number o
  | some n ↦ n
]

unfoldable pub next_sequence_number :
    (ℕ → Sequences → Sequences) → String → SequenceOptions → Sequences → Sequences × Outcome
next_sequence_number other name o t =
    if is_name true name
    then if o.dry_run
      then (t, number (peek_sequence_number name o t))
      else allocate other (sequence_key name o) (first_number o) 64 t
    else (t, bad_name)
