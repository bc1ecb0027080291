-- ===== src/Session/Agree.antt =====
-- packages/ketjs/src/server/sessionstore.ts: two stores that keep the contract answer alike. The ids of new sessions are new to both.
use ketjs.Common.{
  ℕ, ◌≤◌, String, ◌≡◌, refl, sym, ◌∙◌, ap, Option, none, some, List, [], ◌∷◌, kept, arith,
}
use ketjs.Session.Record.{SessionRecord, SessionContext, live}
use ketjs.Session.Store.{SessionStore, Laws}

pub data Call : Type 0 where
  creates : SessionRecord → Call
  reads : String → Call
  touches : String → ℕ → Call
  updates : String → ℕ → SessionContext → Call
  destroys : String → Call
  lists : String → Call
  ends_user : String → Call
  ends_others : String → String → Call
  sweeps : Call

-- The lists and counts of a store are not among the answers that are compared.
pub data Answer : Type 0 where
  session : Option SessionRecord → Answer
  expiry : Option ℕ → Answer
  done failed : Answer

abbrev pub inserted_or : {S : Type 0} → S → Option S → S × Answer
inserted_or s none = (s, failed)
inserted_or s (some s') = (s', done)

module _ {S : Type 0} (store : SessionStore S) where
  open store use {
    create, read, touch, update_context, destroy, list_user, destroy_user, destroy_user_except,
    sweep,
  }

  abbrev pub perform : ℕ → Call → S → S × Answer
  perform now (creates r) s = inserted_or s (create r s)
  perform now (reads id) s = ((read now id s).0, session (read now id s).1)
  perform now (touches id e) s = ((touch now id e s).0, expiry (touch now id e s).1)
  perform now (updates id n c) s =
      ((update_context now id n c s).0, session (update_context now id n c s).1)
  perform now (destroys id) s = (destroy id s, done)
  perform now (lists u) s = ((list_user now u s).0, done)
  perform now (ends_user u) s = ((destroy_user u s).0, done)
  perform now (ends_others u keep) s = ((destroy_user_except u keep s).0, done)
  perform now sweeps s = ((sweep now s).0, done)

  unfoldable pub run : List (ℕ × Call) → S → List Answer
  run [] s = []
  run ((now, c) ∷ calls) s = (perform now c s).1 ∷ run calls (perform now c s).0

module _ {S T : Type 0} (a : SessionStore S) (b : SessionStore T) (la : Laws a) (lb : Laws b) where
  -- From an instant on, the same sessions are alive.
  abbrev pub Agree : ℕ → S → T → Type 0
  Agree now s t = (at : ℕ) (k : String) → now ≤ at → live at (a.get k s) ≡ live at (b.get k t)

  abbrev pub IsNew : Call → S → T → Type 0
  IsNew (creates r) s t = (a.get r.id s ≡ none) × (b.get r.id t ≡ none)
  IsNew c s t = Unit

  perform-Valid :
      (now : ℕ) (c : Call) (s : S) (t : T)
      → IsNew c s t
      → a.Valid s
      → b.Valid t
      → a.Valid (perform a now c s).0 × b.Valid (perform b now c t).0
  perform-Valid now (creates r) s t (f, g) v w =
      let (s', e) = la.can_create r s f in
      let (t', d) = lb.can_create r t g in
      rw (e, d) (la.create_Valid r s s' v e, lb.create_Valid r t t' w d)
  perform-Valid now (reads id) s t f v w = (la.read_Valid now id s v, lb.read_Valid now id t w)
  perform-Valid now (touches id e) s t f v w =
      (la.touch_Valid now id e s v, lb.touch_Valid now id e t w)
  perform-Valid now (updates id n c) s t f v w =
      (la.update_Valid now id n c s v, lb.update_Valid now id n c t w)
  perform-Valid now (destroys id) s t f v w = (la.destroy_Valid id s v, lb.destroy_Valid id t w)
  perform-Valid now (lists u) s t f v w = (la.list_Valid now u s v, lb.list_Valid now u t w)
  perform-Valid now (ends_user u) s t f v w =
      (la.destroy_user_Valid u s v, lb.destroy_user_Valid u t w)
  perform-Valid now (ends_others u keep) s t f v w =
      (la.except_Valid u keep s v, lb.except_Valid u keep t w)
  perform-Valid now sweeps s t f v w = (la.sweep_Valid now s v, lb.sweep_Valid now t w)

  perform-Agree :
      (now : ℕ) (c : Call) (s : S) (t : T)
      → IsNew c s t
      → a.Valid s
      → b.Valid t
      → Agree now s t
      → Agree now (perform a now c s).0 (perform b now c t).0
        × ((perform a now c s).1 ≡ (perform b now c t).1)
  perform-Agree now (creates r) s t (f, g) v w h =
      let (s', e) = la.can_create r s f in
      let (t', d) = lb.can_create r t g in
      rw (e, d)
        (λ at k le. rw (la.created r s s' at k e, lb.created r t t' at k d, h at k le) refl, refl)
  perform-Agree now (reads id) s t f v w h = (
    λ at k le.
        la.read_keeps now id s v at k le ∙ h at k le ∙ sym (lb.read_keeps now id t w at k le),
    ap session (la.read_answer now id s ∙ h now id (omega arith) ∙ sym (lb.read_answer now id t)),
  )
  perform-Agree now (touches id e) s t f v w h = (
    λ at k le.
        rw
          (
            la.touched now id e s at k v,
            lb.touched now id e t at k w,
            h at k le,
            h now id (omega arith),
          )
          refl,
    ap expiry (
        rw (la.touch_answer now id e s v, lb.touch_answer now id e t w, h now id (omega arith))
          refl),
  )
  perform-Agree now (updates id n c) s t f v w h = (
    λ at k le.
        rw
          (
            la.updated now id n c s at k v,
            lb.updated now id n c t at k w,
            h at k le,
            h now id (omega arith),
          )
          refl,
    ap session (
        rw
          (la.update_answer now id n c s v, lb.update_answer now id n c t w, h now id (omega arith))
          refl),
  )
  perform-Agree now (destroys id) s t f v w h =
      (λ at k le. rw (la.destroyed id s at k v, lb.destroyed id t at k w, h at k le) refl, refl)
  perform-Agree now (lists u) s t f v w h = (
    λ at k le. la.list_keeps now u s v at k le ∙ h at k le ∙ sym (lb.list_keeps now u t w at k le),
    refl,
  )
  perform-Agree now (ends_user u) s t f v w h = (
    λ at k le. rw (la.user_destroyed u s at k v, lb.user_destroyed u t at k w, h at k le) refl,
    refl,
  )
  perform-Agree now (ends_others u keep) s t f v w h = (
    λ at k le.
        rw (la.others_destroyed u keep s at k v, lb.others_destroyed u keep t at k w, h at k le)
          refl,
    refl,
  )
  perform-Agree now sweeps s t f v w h = (
    λ at k le. la.sweep_keeps now s v at k le ∙ h at k le ∙ sym (lb.sweep_keeps now t w at k le),
    refl,
  )

  -- Calls in the order of time, with new ids for new sessions.
  abbrev pub Proceeds : ℕ → List (ℕ × Call) → S → T → Type 0
  Proceeds now [] s t = Unit
  Proceeds now ((at, c) ∷ calls) s t =
      (now ≤ at) × IsNew c s t × Proceeds at calls (perform a at c s).0 (perform b at c t).0

  pub run-eq :
      (now : ℕ) (calls : List (ℕ × Call)) (s : S) (t : T)
      → Proceeds now calls s t
      → a.Valid s
      → b.Valid t
      → Agree now s t
      → run a calls s ≡ run b calls t
  unfolding run
  run-eq now [] s t p v w h = refl
  run-eq now ((at, c) ∷ calls) s t (le, new, p) v w h =
      let later : Agree at s t = λ at' k le'. h at' k (omega arith) in
      let (kept, same) = perform-Agree at c s t new v w later in
      let (v', w') = perform-Valid at c s t new v w in
      rw (same, run-eq at calls (perform a at c s).0 (perform b at c t).0 p v' w' kept) refl
