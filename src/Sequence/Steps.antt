-- ===== src/Sequence/Steps.antt =====
-- packages/ketjs/src/server/sequence.ts: the callers of all sequences, in any order. A log records
-- the numbers that one key gave out, the last first.
use ketjs.Common.{ℕ, String, Bool, true, false, Option, none, some, List, [], ◌∷◌, str_eq}
use ketjs.Sequence.{Sequences, take_number}

abbrev pub log_number : Bool → Option ℕ → List ℕ → List ℕ
log_number true (some k) log = k ∷ log
log_number true none log = log
log_number false number log = log

-- A round for the key `k`, of which the read saw `read`, however long ago.
unfoldable pub play : String → String → ℕ → Option ℕ → Sequences × List ℕ → Sequences × List ℕ
play id k start read (t, log) =
    let tried = take_number k start read t in (tried.0, log_number (str_eq k id) tried.1 log)

pub data Reach (id : String) : Sequences × List ℕ → Type 0 where
  begin : (t : Sequences) → Reach id (t, [])
  round :
      {s : Sequences × List ℕ} (k : String) (start : ℕ) (read : Option ℕ)
      → Reach id s
      → Reach id (play id k start read s)
