-- ===== src/Sequence/Numbers.antt =====
-- packages/ketjs/src/server/sequence.ts: the numbers that a sequence gives out.
use ketjs.Common.{
  ℕ, suc, ◌+◌, String, Bool, true, false, ◌≡◌, refl, inl, inr, Option, none, some, List, [], ◌∷◌,
  str_eq, eq_iff, ◌==◌, Bool-cases, Option-cases, lookup, has_key, insert, lookup-insert,
  has_key-lookup, arith,
}
use ketjs.Sequence.{Sequences, insert_next, move_next, take_number}
use ketjs.Sequence.Steps.{Reach, begin, round, play, log_number}

-- The log counts down by ones from below `n`.
abbrev pub CountsTo : ℕ → List ℕ → Type 0
CountsTo n [] = Unit
CountsTo n (k ∷ log) = (suc k ≡ n) × CountsTo k log

-- A log below the row that the table has for the key, and no log without a row.
abbrev pub Below : Option ℕ → List ℕ → Type 0
Below none log = log ≡ []
Below (some n) log = CountsTo n log

unlogged : (b : Bool) (log : List ℕ) → log_number b none log ≡ log
unlogged true log = refl
unlogged false log = refl

fresh-Below :
    (start : ℕ) (row : Option ℕ) (log : List ℕ)
    → row ≡ none
    → Below row log
    → CountsTo (start + 1) (start ∷ log)
fresh-Below start none log e h = rw h (omega arith, tt)
fresh-Below start (some n) log e h = cc

moved-Below :
    (n : ℕ) (row : Option ℕ) (log : List ℕ)
    → row ≡ some n
    → Below row log
    → CountsTo (n + 1) (n ∷ log)
moved-Below n none log e h = cc
moved-Below n (some m) log e h = let same : m ≡ n = cc in (omega arith, rw (← same) h)

-- A key's row after a row was set and the number `x` was given out for the key `k`.
inserted-Below :
    (id k : String) (next x : ℕ) (t : Sequences) (log : List ℕ)
    → (Below (lookup k t) log → CountsTo next (x ∷ log))
    → Below (lookup id t) log
    → Below (lookup id (insert k next t)) (log_number (str_eq k id) (some x) log)
inserted-Below id k next x t log f h = elim (Bool-cases (str_eq k id)) [
  | inl e ↦ rw (lookup-insert k id next t, e) (f (rw ((eq_iff k id).0 e) h))
  | inr e ↦ rw (lookup-insert k id next t, e) h
]

play-Below :
    (id k : String) (start : ℕ) (read : Option ℕ) (t : Sequences) (log : List ℕ)
    → Below (lookup id t) log
    → let s = play id k start read (t, log) in Below (lookup id s.0) s.1
unfolding play take_number insert_next move_next
play-Below id k start none t log h = elim (Bool-cases (has_key k t)) [
  | inl e ↦ rw (e, insert_next, unlogged (str_eq k id) log) h
  | inr e ↦
      rw (e, insert_next)
        (inserted-Below id k (start + 1) start t log
          (fresh-Below start (lookup k t) log (has_key-lookup k t e)) h)
]
play-Below id k start (some n) t log h = elim (Option-cases (lookup k t)) [
  | inl e ↦ rw (e, move_next, unlogged (str_eq k id) log) h
  | inr (m, e) ↦ elim (Bool-cases (m == n)) [
    | inr d ↦ rw (e, d, move_next, unlogged (str_eq k id) log) h
    | inl d ↦
        rw (e, d, move_next)
          (inserted-Below id k (n + 1) n t log
            (moved-Below n (lookup k t) log (ground (arith, e, d))) h)
  ]
]

Reach-Below : {id : String} {s : Sequences × List ℕ} → Reach id s → Below (lookup id s.0) s.1
Reach-Below {id} (begin t) = elim (Option-cases (lookup id t)) [
  | inl e ↦ rw e refl
  | inr (n, e) ↦ rw e tt
]
Reach-Below {id} (round {s} k start read r) = play-Below id k start read s.0 s.1 (Reach-Below r)

-- However the reads and writes of the callers of all sequences interleave, and however old what a
-- caller has read is, the numbers that a key gives out follow one another by ones, so that none is
-- given twice and none is left out, and the key's row holds the number after the last.
pub Reach-CountsTo :
    {id : String} {t : Sequences} {x : ℕ} {log : List ℕ}
    → Reach id (t, x ∷ log)
    → (lookup id t ≡ some (suc x)) × CountsTo x log
Reach-CountsTo {id} {t} {x} {log} r = last (lookup id t) (Reach-Below r)
  where
    last : (row : Option ℕ) → Below row (x ∷ log) → (row ≡ some (suc x)) × CountsTo x log
    last none h = cc
    last (some n) h = (rw h.0 refl, h.1)
