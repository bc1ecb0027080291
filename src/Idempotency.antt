-- ===== src/Idempotency.antt =====
-- packages/ketjs/src/server/idem.ts: the idempotency records, one row of `ket_idem` to a key.
pub mod Protocol
mod Tests
use ketjs.Common.{
  ℕ, ◌+◌, String, Bool, true, false, ◌&&◌, not, Option, none, some, List, ltb, str_eq,
  if◌then◌else◌, filter, length, lookup, insert,
}

pub data IdemState : Type 0 where
  pending done : IdemState

pub record IdemRow : Type 0 where
  pub fn : String
  pub state : IdemState
  pub result : Option String
  pub digest : Option String
  pub created_at : ℕ

abbrev pub IdemTable : Type 0
IdemTable = List (String × IdemRow)

abbrev pub is_pending : IdemState → Bool
is_pending pending = true
is_pending done = false

-- Two digests that are both there, not empty, and different.
abbrev pub digests_differ : Option String → Option String → Bool
digests_differ (some a) (some b) = not (str_eq a "") && (not (str_eq b "") && not (str_eq b a))
digests_differ _ _ = false

-- `state = 'pending' AND created_at < now - staleMs`
abbrev pub is_stale : ℕ → ℕ → IdemRow → Bool
is_stale now stale_ms r = is_pending r.state && ltb (r.created_at + stale_ms) now

unfoldable pub claim : ℕ → String → String → ℕ → Option String → IdemTable → IdemTable × Bool
claim now key fn stale_ms digest t = elim (lookup key t) [
  | none ↦ (
    insert key
        (record { fn = fn; state = pending; result = none; digest = digest; created_at = now }) t,
    true,
  )
  | some r ↦
      if digests_differ digest r.digest
      then (t, false)
      else if is_stale now stale_ms r
      then (insert key (record r { created_at = now; digest = digest }) t, true)
      else (t, false)
]

pub record IdemRecord : Type 0 where
  pub state : IdemState
  pub result : Option String
  pub digest : Option String

unfoldable pub read : String → IdemTable → Option IdemRecord
read key t = elim (lookup key t) [
  | none ↦ none
  | some r ↦ some (record { state = r.state; result = r.result; digest = r.digest })
]

unfoldable pub complete : String → String → IdemTable → IdemTable
complete key result t = elim (lookup key t) [
  | none ↦ t
  | some r ↦ insert key (record r { state = done; result = some result }) t
]

unfoldable pub release : String → IdemTable → IdemTable
release key t = filter (λ (e : String × IdemRow). not (str_eq e.0 key && is_pending e.1.state)) t

unfoldable pub sweep : ℕ → ℕ → IdemTable → IdemTable × ℕ
sweep now older_than_ms t = (
  filter (λ (e : String × IdemRow). not (ltb (e.1.created_at + older_than_ms) now)) t,
  length (filter (λ (e : String × IdemRow). ltb (e.1.created_at + older_than_ms) now) t),
)
