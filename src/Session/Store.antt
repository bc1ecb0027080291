-- ===== src/Session/Store.antt =====
-- packages/ketjs/src/server/sessionstore.ts: the type `SessionStore`, with what its users rely on.
-- `get` is the record that a store holds under an id, alive or not; what a store means is what is
-- alive of it at an instant.
use ketjs.Common.{
  ℕ, ◌≤◌, String, true, not, ◌≡◌, Option, none, some, List, In, All, str_eq, ◌==◌, kept,
  if◌then◌else◌,
}
use ketjs.Session.Record.{SessionRecord, SessionContext, alive, in_context, live}

-- The answer of a call that changes a live session: absent if there is none.
abbrev pub answer_of {ℓ} : {A : Type ℓ} → (SessionRecord → A) → Option SessionRecord → Option A
answer_of f none = none
answer_of f (some r) = some (f r)

-- The view after a live session is replaced.
abbrev pub replaced :
    (SessionRecord → SessionRecord)
    → ℕ
    → Option SessionRecord
    → Option SessionRecord
    → Option SessionRecord
replaced f at none old = old
replaced f at (some r) old = live at (some (f r))

pub record SessionStore (S : Type 0) : Type 1 where
  pub Valid : S → Type 0
  pub get : String → S → Option SessionRecord
  pub create : SessionRecord → S → Option S
  pub read : ℕ → String → S → S × Option SessionRecord
  pub touch : ℕ → String → ℕ → S → S × Option ℕ
  pub update_context : ℕ → String → ℕ → SessionContext → S → S × Option SessionRecord
  pub destroy : String → S → S
  pub list_user : ℕ → String → S → S × List SessionRecord
  pub destroy_user : String → S → S × ℕ
  pub destroy_user_except : String → String → S → S × ℕ
  pub sweep : ℕ → S → S × ℕ

module _ {S : Type 0} (store : SessionStore S) where
  open store use {
    Valid, get, create, read, touch, update_context, destroy, list_user, destroy_user,
    destroy_user_except, sweep,
  }

  -- What is alive of the store under an id.
  abbrev pub view : ℕ → String → S → Option SessionRecord
  view at k s = live at (get k s)

  -- From an instant on, a call leaves what is alive.
  abbrev pub KeepsViews : ℕ → S → S → Type 0
  KeepsViews now s s' = (at : ℕ) (k : String) → now ≤ at → view at k s' ≡ view at k s

  -- The contract, for a store in a valid state.
  pub record Laws : Type 0 where
    pub create_Valid : (r : SessionRecord) (s s' : S) → Valid s → create r s ≡ some s' → Valid s'
    pub created :
        (r : SessionRecord) (s s' : S) (at : ℕ) (k : String)
        → create r s ≡ some s'
        → view at k s' ≡ (if str_eq r.id k then live at (some r) else view at k s)
    pub can_create :
        (r : SessionRecord) (s : S) → get r.id s ≡ none → (s' : S) × (create r s ≡ some s')
    pub read_Valid : (now : ℕ) (id : String) (s : S) → Valid s → Valid (read now id s).0
    pub read_answer : (now : ℕ) (id : String) (s : S) → (read now id s).1 ≡ view now id s
    pub read_keeps : (now : ℕ) (id : String) (s : S) → Valid s → KeepsViews now s (read now id s).0
    pub touch_Valid : (now : ℕ) (id : String) (e : ℕ) (s : S) → Valid s → Valid (touch now id e s).0
    pub touch_answer :
        (now : ℕ) (id : String) (e : ℕ) (s : S)
        → Valid s
        → (touch now id e s).1 ≡ answer_of (λ _. e) (view now id s)
    pub touched :
        (now : ℕ) (id : String) (e : ℕ) (s : S) (at : ℕ) (k : String)
        → Valid s
        → view at k (touch now id e s).0 ≡ (
            if str_eq id k
            then replaced (λ r. record r { expires_at = e }) at (view now id s) (view at k s)
            else view at k s)
    pub update_Valid :
        (now : ℕ) (id : String) (n : ℕ) (c : SessionContext) (s : S)
        → Valid s
        → Valid (update_context now id n c s).0
    pub update_answer :
        (now : ℕ) (id : String) (n : ℕ) (c : SessionContext) (s : S)
        → Valid s
        → (update_context now id n c s).1
          ≡ answer_of (in_context c) (kept (λ r. r.revision == n) (view now id s))
    pub updated :
        (now : ℕ) (id : String) (n : ℕ) (c : SessionContext) (s : S) (at : ℕ) (k : String)
        → Valid s
        → view at k (update_context now id n c s).0 ≡ (
            if str_eq id k
            then replaced
                (in_context c)
                at
                (kept (λ r. r.revision == n) (view now id s))
                (view at k s)
            else view at k s)
    pub destroy_Valid : (id : String) (s : S) → Valid s → Valid (destroy id s)
    pub destroyed :
        (id : String) (s : S) (at : ℕ) (k : String)
        → Valid s
        → view at k (destroy id s) ≡ (if str_eq id k then none else view at k s)
    pub list_Valid : (now : ℕ) (u : String) (s : S) → Valid s → Valid (list_user now u s).0
    pub list_keeps :
        (now : ℕ) (u : String) (s : S) → Valid s → KeepsViews now s (list_user now u s).0
    pub list_sound :
        (now : ℕ) (u : String) (s : S)
        → All (λ r. (alive r now ≡ true) × (str_eq r.user_id u ≡ true)) (list_user now u s).1
    pub list_complete :
        (now : ℕ) (u k : String) (s : S) (r : SessionRecord)
        → Valid s
        → view now k s ≡ some r
        → str_eq r.user_id u ≡ true
        → In r (list_user now u s).1
    pub destroy_user_Valid : (u : String) (s : S) → Valid s → Valid (destroy_user u s).0
    pub user_destroyed :
        (u : String) (s : S) (at : ℕ) (k : String)
        → Valid s
        → view at k (destroy_user u s).0 ≡ kept (λ r. not (str_eq r.user_id u)) (view at k s)
    pub except_Valid : (u keep : String) (s : S) → Valid s → Valid (destroy_user_except u keep s).0
    pub others_destroyed :
        (u keep : String) (s : S) (at : ℕ) (k : String)
        → Valid s
        → view at k (destroy_user_except u keep s).0 ≡ (
            if str_eq k keep
            then view at k s
            else kept (λ r. not (str_eq r.user_id u)) (view at k s))
    pub sweep_Valid : (now : ℕ) (s : S) → Valid s → Valid (sweep now s).0
    pub sweep_keeps : (now : ℕ) (s : S) → Valid s → KeepsViews now s (sweep now s).0
