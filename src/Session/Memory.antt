-- ===== src/Session/Memory.antt =====
-- packages/ketjs/src/server/sessionstore.ts: `memorySessionStore`, a map from ids to records.
use ketjs.Common.{
  ℕ, String, Bool, ◌&&◌, ◌||◌, not, Option, none, some, List, str_eq, leb, ◌==◌, if◌then◌else◌,
  lookup, insert, filter, length, map, sort_by,
}
use ketjs.Session.Record.{SessionRecord, SessionContext, alive, in_context, newer}

abbrev pub Rows : Type 0
Rows = List (String × SessionRecord)

-- `Map.delete`, and the deletion of the entries that a loop finds.
abbrev pub delete_rows : (SessionRecord → Bool) → Rows → Rows
delete_rows p rows = filter (λ (e : String × SessionRecord). not (p e.1)) rows

abbrev pub delete_row : String → Rows → Rows
delete_row id rows = filter (λ (e : String × SessionRecord). not (str_eq e.0 id)) rows

abbrev pub count_rows : (SessionRecord → Bool) → Rows → ℕ
count_rows p rows = length (filter (λ (e : String × SessionRecord). p e.1) rows)

unfoldable pub create : SessionRecord → Rows → Option Rows
create r rows = some (insert r.id r rows)

unfoldable pub read : ℕ → String → Rows → Rows × Option SessionRecord
read now id rows = elim (lookup id rows) [
  | none ↦ (rows, none)
  | some r ↦ if not (alive r now) then (delete_row id rows, none) else (rows, some r)
]

unfoldable pub touch : ℕ → String → ℕ → Rows → Rows × Option ℕ
touch now id expires_at rows = elim (lookup id rows) [
  | none ↦ (rows, none)
  | some r ↦
      if not (alive r now)
      then (rows, none)
      else (insert id (record r { expires_at = expires_at }) rows, some expires_at)
]

unfoldable pub update_context : ℕ → String → ℕ → SessionContext → Rows → Rows × Option SessionRecord
update_context now id expected context rows = elim (lookup id rows) [
  | none ↦ (rows, none)
  | some r ↦
      if not (alive r now) || not (r.revision == expected)
      then (rows, none)
      else (insert id (in_context context r) rows, some (in_context context r))
]

unfoldable pub destroy : String → Rows → Rows
destroy id rows = delete_row id rows

-- The loop deletes what has expired and lists the rest of the user's.
unfoldable pub list_user : ℕ → String → Rows → Rows × List SessionRecord
list_user now user_id rows =
    let rest = delete_rows (λ r. not (alive r now)) rows in
    (
      rest,
      sort_by newer (
          map (λ (e : String × SessionRecord). e.1)
            (filter (λ (e : String × SessionRecord). str_eq e.1.user_id user_id) rest)),
    )

unfoldable pub destroy_user : String → Rows → Rows × ℕ
destroy_user user_id rows =
    let p = λ (r : SessionRecord). str_eq r.user_id user_id in
    (delete_rows p rows, count_rows p rows)

-- `id !== keepId` is about the key of the entry.
unfoldable pub destroy_user_except : String → String → Rows → Rows × ℕ
destroy_user_except user_id keep rows =
    let p = λ (e : String × SessionRecord). str_eq e.1.user_id user_id && not (str_eq e.0 keep) in
    (filter (λ (e : String × SessionRecord). not (p e)) rows, length (filter p rows))

unfoldable pub sweep : ℕ → Rows → Rows × ℕ
sweep at rows =
    let p = λ (r : SessionRecord). leb r.expires_at at in (delete_rows p rows, count_rows p rows)
