-- ===== src/Queue/Exclusive.antt =====
-- packages/ketjs/src/server/queue.ts: `claimBatch`. The SQLite loop and the PostgreSQL statement
-- write the same table, and the jobs that they return are the picked rows, claimed.
use ketjs.Common.{
  ℕ, zero, suc, String, Bool, true, false, ◌&&◌, ◌≡◌, refl, ◌∙◌, sym, ap, subst, inl, inr, some,
  List, [], ◌∷◌, map, str_eq, eq_iff, eq_refl, leb, if◌then◌else◌, Bool-cases, filter, take, All,
  All-In, In, here, there, arith, place, sort_by, All-place, All-sort_by, All-take, All-map,
  All-filter-In,
}
use ketjs.Queue.Row.{Job, Table, is_runnable, update_row, get, clash}
use ketjs.Queue.Claim.{
  ClaimOptions, claimed, has_id, claim_each, pick, claim_sqlite, claim_postgres, is_due, clamp,
  claim_order,
}
use ketjs.Queue.Unique.{NoClash, clash_comm, clash-id, filter-NoClash, str_eq_comm}
use ketjs.Queue.Steps.{picked_up}
use ketjs.Queue.Consistent.{Step-NoClash}

filter_all : (t : Table) → filter (λ r. true) t ≡ t
filter_all [] = refl
filter_all (r ∷ t) = ap (λ u. r ∷ u) (filter_all t)

module _ (le : Job → Job → Bool) where
  place-NoClash :
      (x : Job) (t : Table) → All (λ q. clash x q ≡ false) t → NoClash t → NoClash (place le x t)
  place-NoClash x [] a h = (tt, tt)
  place-NoClash x (y ∷ t) a h = elim (Bool-cases (le x y)) [
    | inl e ↦ rw e (a, h)
    | inr e ↦ rw e (
      All-place le (λ q. clash y q ≡ false) x t (clash_comm y x ∙ a.0) h.0,
      place-NoClash x t a.1 h.1,
    )
  ]

  sort_by-NoClash : (t : Table) → NoClash t → NoClash (sort_by le t)
  sort_by-NoClash [] h = tt
  sort_by-NoClash (x ∷ t) h =
      place-NoClash x (sort_by le t) (All-sort_by le (λ q. clash x q ≡ false) t h.0)
        (sort_by-NoClash t h.1)

  take-NoClash : (n : ℕ) (t : Table) → NoClash t → NoClash (take n t)
  take-NoClash zero t h = tt
  take-NoClash (suc n) [] h = tt
  take-NoClash (suc n) (x ∷ t) h =
      (All-take le (λ q. clash x q ≡ false) n t h.0, take-NoClash n t h.1)

-- A row that may be claimed now.
abbrev Ready : ℕ → Job → Type 0
Ready at r = (is_runnable r.state && leb r.scheduled_at at) ≡ true

-- What the loop does to a table, as one map.
pub mark : ℕ → ClaimOptions → List Job → Job → Job
mark at o ps r = if has_id ps r.id then claimed at o r else r

module _ (at : ℕ) (o : ClaimOptions) where
  In-get : (t : Table) (x : Job) → NoClash t → In x t → get x.id t ≡ some x
  unfolding get
  In-get [] x h m = elim m [ ]
  In-get (y ∷ t) x h (here e) = rw e (rw (eq_refl y.id))
  In-get (y ∷ t) x h (there m) =
      rw (clash-id y x (All-In (λ q. clash y q ≡ false) m h.0)) (In-get t x h.1 m)

  -- Rows that clash with `x` by no id are not marked.
  mark_absent :
      (x : Job) (t : Table) → All (λ q. clash x q ≡ false) t → map (mark at o (x ∷ [])) t ≡ t
  unfolding mark
  mark_absent x [] a = refl
  mark_absent x (y ∷ t) a = rw (clash-id x y a.0, mark_absent x t a.1)

  update_absent :
      (x : Job) (p : Job → Bool) (t : Table)
      → All (λ q. clash x q ≡ false) t
      → update_row x.id p (claimed at o) t ≡ (t, false)
  unfolding update_row
  update_absent x p [] a = refl
  update_absent x p (y ∷ t) a =
      rw (str_eq_comm y.id x.id, clash-id x y a.0, update_absent x p t a.1)

  head-Ready :
      (x : Job) (t : Table)
      → All (λ q. clash x q ≡ false) t
      → Ready at x
      → update_row x.id (λ r. is_runnable r.state && leb r.scheduled_at at) (claimed at o) (x ∷ t)
        ≡ (map (mark at o (x ∷ [])) (x ∷ t), true)
  unfolding update_row mark
  head-Ready x t a r =
      rw
        (
          eq_refl x.id,
          r,
          update_absent x (λ r. is_runnable r.state && leb r.scheduled_at at) t a,
          mark_absent x t a,
        )
        refl

  tail-Ready :
      (x y : Job) (t : Table)
      → str_eq y.id x.id ≡ false
      → update_row x.id (λ r. is_runnable r.state && leb r.scheduled_at at) (claimed at o) t
        ≡ (map (mark at o (x ∷ [])) t, true)
      → update_row x.id (λ r. is_runnable r.state && leb r.scheduled_at at) (claimed at o) (y ∷ t)
        ≡ (map (mark at o (x ∷ [])) (y ∷ t), true)
  unfolding update_row mark
  tail-Ready x y t d h = rw (h, d, str_eq_comm x.id y.id, d) refl

  -- The guarded UPDATE of a row that is there and ready.
  update-Ready :
      (x : Job) (t : Table)
      → NoClash t
      → In x t
      → Ready at x
      → update_row x.id (λ r. is_runnable r.state && leb r.scheduled_at at) (claimed at o) t
        ≡ (map (mark at o (x ∷ [])) t, true)
  update-Ready x [] h m r = elim m [ ]
  update-Ready x (y ∷ t) h (here e) r =
      subst
        (λ z.
          update_row z.id (λ r. is_runnable r.state && leb r.scheduled_at at) (claimed at o) (y ∷ t)
          ≡ (map (mark at o (z ∷ [])) (y ∷ t), true))
        (sym e) (head-Ready y t h.0 (subst (Ready at) e r))
  update-Ready x (y ∷ t) h (there m) r =
      tail-Ready x y t (clash-id y x (All-In (λ q. clash y q ≡ false) m h.0))
        (update-Ready x t h.1 m r)

  pub claimed_id : (r : Job) → (claimed at o r).id ≡ r.id
  unfolding claimed
  claimed_id r = refl

  -- Marking one row and then the others, which have other ids, marks all of them.
  mark_once :
      (x : Job) (ps : List Job) (r : Job)
      → All (λ q. clash x q ≡ false) ps
      → mark at o ps (mark at o (x ∷ []) r) ≡ mark at o (x ∷ ps) r
  unfolding mark
  mark_once x ps r a = elim (Bool-cases (str_eq x.id r.id)) [
    | inl e ↦ rw (e, claimed_id r, ← (eq_iff x.id r.id).0 e, not_picked x ps a)
    | inr e ↦ rw e
  ]
    where
      not_picked :
          (x : Job) (ps : List Job) → All (λ q. clash x q ≡ false) ps → has_id ps x.id ≡ false
      not_picked x [] a = refl
      not_picked x (q ∷ ps) a = rw (str_eq_comm q.id x.id, clash-id x q a.0) (not_picked x ps a.1)

  mark-All :
      (x : Job) (ps : List Job) (t : Table)
      → All (λ q. clash x q ≡ false) ps
      → map (mark at o ps) (map (mark at o (x ∷ [])) t) ≡ map (mark at o (x ∷ ps)) t
  mark-All x ps [] a = refl
  mark-All x ps (r ∷ t) a = rw (mark_once x ps r a, mark-All x ps t a)

  -- A row with another id is still in the table after the mark.
  In-mark : (x q : Job) (t : Table) → clash x q ≡ false → In q t → In q (map (mark at o (x ∷ [])) t)
  unfolding mark
  In-mark x q [] c m = elim m [ ]
  In-mark x q (r ∷ t) c (here e) = here (rw (← e) (rw (clash-id x q c)))
  In-mark x q (r ∷ t) c (there m) = there (In-mark x q t c m)

  In-mark-All :
      (x : Job) (ps : List Job) (t : Table)
      → All (λ q. clash x q ≡ false) ps
      → All (λ q. In q t) ps
      → All (λ q. In q (map (mark at o (x ∷ [])) t)) ps
  In-mark-All x [] t a m = tt
  In-mark-All x (q ∷ ps) t a m = (In-mark x q t a.0 m.0, In-mark-All x ps t a.1 m.1)

  In-marked : (x : Job) (t : Table) → In x t → In (claimed at o x) (map (mark at o (x ∷ [])) t)
  unfolding mark
  In-marked x [] m = elim m [ ]
  In-marked x (r ∷ t) (here e) = here (rw (← e) (rw (eq_refl x.id)))
  In-marked x (r ∷ t) (there m) = there (In-marked x t m)

  mark_none : (t : Table) → map (mark at o []) t ≡ t
  unfolding mark
  mark_none [] = refl
  mark_none (r ∷ t) = ap (λ u. r ∷ u) (mark_none t)

  -- The loop over distinct ready rows of the table claims each of them and returns it as claimed.
  claim_each_lem :
      (ps : List Job) (t : Table)
      → NoClash t
      → NoClash ps
      → All (λ q. In q t) ps
      → All (Ready at) ps
      → claim_each at o ps t ≡ (map (mark at o ps) t, map (claimed at o) ps)
  unfolding claim_each
  claim_each_lem [] t h d m r = rw (mark_none t)
  claim_each_lem (p ∷ ps) t h d m r =
      let moved = update-Ready p t h m.0 r.0 in
      let kept = Step-NoClash (picked_up at o p.id refl) h in
      let u = map (mark at o (p ∷ [])) t in
      let safe : NoClash u = rw moved at kept in
      let get_claimed : get p.id u ≡ some (claimed at o p) =
        subst (λ k. get k u ≡ some (claimed at o p)) (claimed_id p)
          (In-get u (claimed at o p) safe (In-marked p t m.0)) in
      rw (moved, claim_each_lem ps u safe d.1 (In-mark-All p ps t d.0 m.1) r.1)
        (rw (get_claimed, mark-All p ps t d.0))

In-take : {x : Job} (n : ℕ) (xs : List Job) → In x (take n xs) → In x xs
In-take zero xs m = elim m [ ]
In-take (suc n) [] m = elim m [ ]
In-take (suc n) (y ∷ xs) (here e) = here e
In-take (suc n) (y ∷ xs) (there m) = there (In-take n xs m)

module _ (text_le : String → String → Bool) (at : ℕ) (queue : String) (o : ClaimOptions)
    (t : Table) where
  due_rows : All (λ r. In r t × (is_due at queue r ≡ true)) (filter (is_due at queue) t)
  due_rows = All-filter-In (is_due at queue) t t (λ x m. m)

  pub pick_sound : All (λ r. In r t × (is_due at queue r ≡ true)) (pick text_le at queue o.limit t)
  unfolding pick
  pick_sound =
      All-take (claim_order text_le) _ (clamp 100 o.limit) _
        (All-sort_by (claim_order text_le) _ (filter (is_due at queue) t) due_rows)

  pick-NoClash : NoClash t → NoClash (pick text_le at queue o.limit t)
  unfolding pick
  pick-NoClash h =
      take-NoClash (claim_order text_le) (clamp 100 o.limit) _
        (sort_by-NoClash (claim_order text_le) _ (filter-NoClash (is_due at queue) t h))

  due-Ready : (r : Job) → is_due at queue r ≡ true → Ready at r
  unfolding is_due
  due-Ready r h = ground arith

  -- On a table in which no two rows clash, the SQLite transaction claims exactly the picked rows:
  -- each becomes `claimed`, every other row is left alone, and the result lists the picked rows,
  -- claimed, in the order of the pick.
  pub claim_sqlite_lem :
      NoClash t
      → claim_sqlite text_le at queue o t ≡ (
        map (λ r. if has_id (pick text_le at queue o.limit t) r.id then claimed at o r else r) t,
        map (claimed at o) (pick text_le at queue o.limit t),
      )
  unfolding claim_sqlite mark
  claim_sqlite_lem h =
      claim_each_lem at o (pick text_le at queue o.limit t) t h (pick-NoClash h)
        (All-map _ _ (λ r d. d.0) _ pick_sound) (All-map _ _ (λ r d. due-Ready r d.1) _ pick_sound)

  -- On a table in which no two rows clash and no other transaction has a lock, the PostgreSQL
  -- statement and the SQLite transaction write the same table.
  pub claim_postgres-claim_sqlite :
      NoClash t
      → (claim_postgres text_le (λ id. false) at queue o t).0
        ≡ (claim_sqlite text_le at queue o t).0
  unfolding claim_postgres
  claim_postgres-claim_sqlite h = rw (filter_all t) (ap (λ r. r.0) (sym (claim_sqlite_lem h)))
