-- ===== src/Routes/Chosen.antt =====
-- packages/ketjs/src/kernel/routes.ts: which route a path finds.
use ketjs.Common.{
  ◌<◌, String, Bool, true, false, ◌≡◌, refl, sym, ap, ◌∙◌, ◌⊎◌, inl, inr, Option, none, some, List,
  [], ◌∷◌, eq_iff, any, Bool-cases, All, In, here, there, All-In, All-of_In, Any-false, place,
  sort_by, IsSorted, IsOrder, sort_by-IsSorted, In-sort_by, All-place, All-sort_by, arith,
}
use ketjs.Routes.{
  Segment, static, param, RoutePattern, RouteError, Result, ok, err, overlap, overlap_all,
  ambiguous_routes, match_route_pattern,
}
use ketjs.Routes.Compile.{
  Entry, Found, ambiguous_entries, any_ambiguous, pattern_le, parse_entries, compile_routes,
  find_route,
}
use ketjs.Routes.Apart.{matched-ambiguous_routes}

overlap_sym : (a b : Segment) → overlap a b ≡ overlap b a
overlap_sym (static a) (static b) = ground (arith, eq_iff a b, eq_iff b a)
overlap_sym (static a) (param b) = refl
overlap_sym (param a) (static b) = refl
overlap_sym (param a) (param b) = refl

overlap_all_sym : (a b : List Segment) → overlap_all a b ≡ overlap_all b a
unfolding overlap_all
overlap_all_sym [] [] = refl
overlap_all_sym [] (y ∷ b) = refl
overlap_all_sym (x ∷ a) [] = refl
overlap_all_sym (x ∷ a) (y ∷ b) = rw (overlap_sym x y, overlap_all_sym a b) refl

ambiguous_sym : (a b : RoutePattern) → ambiguous_routes a b ≡ ambiguous_routes b a
unfolding ambiguous_routes
ambiguous_sym a b = ground (arith, overlap_all_sym a.segments b.segments)

-- No two entries of the list are ambiguous.
abbrev pub AllApart {ℓ} : {T : Type ℓ} → List (Entry T) → Type ℓ
AllApart [] = Unit
AllApart (e ∷ entries) = All (λ f. ambiguous_entries e f ≡ false) entries × AllApart entries

any_ambiguous-AllApart {ℓ} :
    {T : Type ℓ} (entries : List (Entry T)) → any_ambiguous entries ≡ false → AllApart entries
unfolding any_ambiguous
any_ambiguous-AllApart [] h = tt
any_ambiguous-AllApart (e ∷ entries) h = elim (Bool-cases (any (ambiguous_entries e) entries)) [
  | inl c ↦ cc (rw c at h)
  | inr c ↦ (Any-false (ambiguous_entries e) entries c, any_ambiguous-AllApart entries (rw c at h))
]

place-AllApart {ℓ} :
    {T : Type ℓ} (le : Entry T → Entry T → Bool) (e : Entry T) (entries : List (Entry T))
    → All (λ f. ambiguous_entries e f ≡ false) entries
    → AllApart entries
    → AllApart (place le e entries)
place-AllApart le e [] h k = (tt, tt)
place-AllApart le e (f ∷ entries) h k = elim (Bool-cases (le e f)) [
  | inl c ↦ rw c (h, k)
  | inr c ↦ rw c (
    All-place le (λ g. ambiguous_entries f g ≡ false) e entries
        (ambiguous_sym f.pattern e.pattern ∙ h.0) k.0,
    place-AllApart le e entries h.1 k.1,
  )
]

sort_by-AllApart {ℓ} :
    {T : Type ℓ} (le : Entry T → Entry T → Bool) (entries : List (Entry T))
    → AllApart entries
    → AllApart (sort_by le entries)
sort_by-AllApart le [] h = tt
sort_by-AllApart le (e ∷ entries) h =
    place-AllApart le e (sort_by le entries)
      (All-sort_by le (λ f. ambiguous_entries e f ≡ false) entries h.0)
      (sort_by-AllApart le entries h.1)

Match-cases {ℓ} :
    {A : Type ℓ} (m : Result A) → ((x : RouteError) × (m ≡ err x)) ⊎ ((a : A) × (m ≡ ok a))
Match-cases (ok a) = inr (a, refl)
Match-cases (err x) = inl (x, refl)

some_inj {ℓ} : {A : Type ℓ} {a b : A} → (ok (some a)) ≡ ok (some b) → a ≡ b
some_inj h = cc

ok_inj {ℓ} : {A : Type ℓ} {a b : A} → ok a ≡ ok b → a ≡ b
ok_inj h = cc

module _ (decode : String → Option String) (locale_le : String → String → Bool) where
  -- The order of the table, if the order of the paths is total and transitive.
  entry-IsOrder {ℓ} :
      {T : Type ℓ}
      → IsOrder locale_le
      → IsOrder {A = Entry T} (λ a b. pattern_le decode locale_le a.pattern b.pattern)
  unfolding pattern_le
  entry-IsOrder o = record {
    total = λ a b h. ground (arith, o.total a.pattern.path b.pattern.path);
    trans = λ a b c h k. ground (arith, o.trans a.pattern.path b.pattern.path c.pattern.path);
  }

  -- The route is the one that was found, or has fewer static segments if it matches at all.
  abbrev pub IsBehind {ℓ} : {T : Type ℓ} → String → Entry T → Entry T → Type ℓ
  IsBehind pathname e f =
      (f ≡ e)
      ⊎ ((q : List (String × String))
          → match_route_pattern decode f.pattern pathname ≡ ok (some q)
          → f.pattern.static_count < e.pattern.static_count)

  IsBehind-later {ℓ} :
      {T : Type ℓ} (pathname : String) (e f : Entry T) (params : List (String × String))
      → match_route_pattern decode e.pattern pathname ≡ ok (some params)
      → ambiguous_entries e f ≡ false
      → pattern_le decode locale_le e.pattern f.pattern ≡ true
      → IsBehind pathname e f
  unfolding pattern_le
  IsBehind-later pathname e f params m apart before = inr (λ q k.
      let (lengths, counts) =
        matched-ambiguous_routes decode e.pattern f.pattern pathname params q m k in
      ground (arith, apart, before, counts))

  find_route-IsBehind {ℓ} :
      {T : Type ℓ} (pathname : String) (table : List (Entry T)) (found : Found T)
      → AllApart table
      → IsSorted (λ a b. pattern_le decode locale_le a.pattern b.pattern) table
      → find_route decode locale_le table pathname ≡ ok (some found)
      → (e : Entry T) × In e table
        × (found.path ≡ e.pattern.path)
        × (found.value ≡ e.value)
        × (match_route_pattern decode e.pattern pathname ≡ ok (some found.params))
        × All (IsBehind pathname e) table
  unfolding find_route
  find_route-IsBehind {T} pathname [] found a s h = cc
  find_route-IsBehind {T} pathname (e ∷ table) found a s h =
      elim (Match-cases (match_route_pattern decode e.pattern pathname)) [
        | inl (x, c) ↦ cc (rw c at h)
        | inr (none, c) ↦
            let (f, m, p, v, q, rest) =
              find_route-IsBehind pathname table found a.1 s.1 (rw (c, find_route) at h) in
            (f, there m, p, v, q, (inr (λ q k. cc), rest))
        | inr (some params, c) ↦
            let same : record { path = e.pattern.path; value = e.value; params = params } ≡ found =
              some_inj (rw (c, find_route) at h) in
            (
              e,
              here refl,
              sym (ap (λ (x : Found T). x.path) same),
              sym (ap (λ (x : Found T). x.value) same),
              rw (← same) c,
              (
                inl refl,
                All-of_In (IsBehind pathname e) table (λ f m.
                    IsBehind-later pathname e f params c
                      (All-In (λ g. ambiguous_entries e g ≡ false) m a.0)
                      (All-In (λ g. pattern_le decode locale_le e.pattern g.pattern ≡ true) m s.0)),
              ),
            )
      ]

  -- If the order of the paths is total and transitive and the routes compile, the route that a path
  -- finds matches it with the answered parameters, and every other route of the table either does
  -- not match the path or has fewer static segments. So the order of the declarations is no matter.
  pub compile_routes-IsBehind {ℓ} :
      {T : Type ℓ} (o : IsOrder locale_le) (pathname : String) (routes : List (String × T))
      (entries table : List (Entry T)) (found : Found T)
      → parse_entries decode locale_le routes ≡ ok entries
      → compile_routes decode locale_le routes ≡ ok table
      → find_route decode locale_le table pathname ≡ ok (some found)
      → (e : Entry T) × In e table
        × (found.path ≡ e.pattern.path)
        × (found.value ≡ e.value)
        × (match_route_pattern decode e.pattern pathname ≡ ok (some found.params))
        × All (IsBehind pathname e) entries
  unfolding compile_routes
  compile_routes-IsBehind {T} o pathname routes entries table found parsed compiled h =
      elim (Bool-cases (any_ambiguous entries)) [
        | inl c ↦ cc (rw (parsed, c) at compiled)
        | inr c ↦
            let le : Entry T → Entry T → Bool =
              λ a b. pattern_le decode locale_le a.pattern b.pattern in
            let same : sort_by le entries ≡ table = ok_inj (rw (parsed, c) at compiled) in
            let (e, m, p, v, q, behind) =
              find_route-IsBehind pathname (sort_by le entries) found
                (sort_by-AllApart le entries (any_ambiguous-AllApart entries c))
                (sort_by-IsSorted le (entry-IsOrder o) entries) (rw same h) in
            (
              e,
              rw (← same) m,
              p,
              v,
              q,
              All-of_In (IsBehind pathname e) entries
                  (λ f k. All-In (IsBehind pathname e) (In-sort_by le k) behind),
            )
      ]
