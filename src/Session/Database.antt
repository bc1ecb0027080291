-- ===== src/Session/Database.antt =====
-- packages/ketjs/src/server/sessionstore.ts: `dbSessionStore`, the statements on ket_session. The
-- calls of one store run one after the other; between the UPDATE and the SELECT of updateContext no
-- other connection writes.
use ketjs.Common.{
  ℕ, String, Bool, ◌&&◌, not, Option, none, some, List, [], ◌∷◌, ◌++◌, str_eq, ltb, leb, ◌==◌,
  if◌then◌else◌, filter, any, length, map, sort_by,
}
use ketjs.Session.Record.{SessionRecord, SessionContext, in_context, newer}

abbrev pub SessionTable : Type 0
SessionTable = List SessionRecord

-- `SELECT * FROM ket_session WHERE id = ...`, the first row.
abbrev pub select_id : String → SessionTable → Option SessionRecord
select_id id [] = none
select_id id (r ∷ t) = if str_eq r.id id then some r else select_id id t

-- `DELETE ... WHERE`, with `changes`.
abbrev pub delete_where : (SessionRecord → Bool) → SessionTable → SessionTable × ℕ
delete_where p t = (filter (λ r. not (p r)) t, length (filter p t))

-- `UPDATE ... SET ... WHERE`
abbrev pub update_where :
    (SessionRecord → Bool) → (SessionRecord → SessionRecord) → SessionTable → SessionTable
update_where p f t = map (λ r. if p r then f r else r) t

-- The INSERT fails on a key that is there.
unfoldable pub create : SessionRecord → SessionTable → Option SessionTable
create r t = if any (λ q. str_eq q.id r.id) t then none else some (t ++ r ∷ [])

unfoldable pub read : ℕ → String → SessionTable → SessionTable × Option SessionRecord
read now id t = elim (select_id id t) [
  | none ↦ (t, none)
  | some r ↦
      if leb r.expires_at now then ((delete_where (λ q. str_eq q.id id) t).0, none) else (t, some r)
]

unfoldable pub touch : ℕ → String → ℕ → SessionTable → SessionTable × Option ℕ
touch now id expires_at t =
    let p = λ (r : SessionRecord). str_eq r.id id && ltb now r.expires_at in
    (
      update_where p (λ r. record r { expires_at = expires_at }) t,
      if any p t then some expires_at else none,
    )

unfoldable pub update_context :
    ℕ → String → ℕ → SessionContext → SessionTable → SessionTable × Option SessionRecord
update_context now id expected context t =
    let p =
      λ (r : SessionRecord). str_eq r.id id && (r.revision == expected && ltb now r.expires_at) in
    let u = update_where p (in_context context) t in (u, if any p t then select_id id u else none)

unfoldable pub destroy : String → SessionTable → SessionTable
destroy id t = (delete_where (λ r. str_eq r.id id) t).0

unfoldable pub list_user : ℕ → String → SessionTable → SessionTable × List SessionRecord
list_user now user_id t =
    let u = (delete_where (λ r. str_eq r.user_id user_id && leb r.expires_at now) t).0 in
    (u, sort_by newer (filter (λ r. str_eq r.user_id user_id) u))

unfoldable pub destroy_user : String → SessionTable → SessionTable × ℕ
destroy_user user_id t = delete_where (λ r. str_eq r.user_id user_id) t

unfoldable pub destroy_user_except : String → String → SessionTable → SessionTable × ℕ
destroy_user_except user_id keep t =
    delete_where (λ r. str_eq r.user_id user_id && not (str_eq r.id keep)) t

unfoldable pub sweep : ℕ → SessionTable → SessionTable × ℕ
sweep at t = delete_where (λ r. leb r.expires_at at) t
