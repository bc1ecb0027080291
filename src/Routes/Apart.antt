-- ===== src/Routes/Apart.antt =====
-- packages/ketjs/src/kernel/routes.ts: patterns that the ambiguity test keeps apart match no common
-- path.
use ketjs.Common.{
  String, true, ◌≡◌, refl, inl, inr, Option, some, List, [], ◌∷◌, str_eq, ◌==◌, eq_iff, eq_refl,
  Bool-cases, Option-cases, length, insert, arith,
}
use ketjs.Routes.{
  Segment, static, param, RoutePattern, ok, overlap_all, parts_of, match_segments,
  match_route_pattern, ambiguous_routes,
}

module _ (decode : String → Option String) where
  matched_static :
      (t : String) (a : List Segment) (part : String) (parts : List String)
      (p r : List (String × String))
      → match_segments decode (static t ∷ a) (part ∷ parts) p ≡ ok (some r)
      → (decode part ≡ some t) × (match_segments decode a parts p ≡ ok (some r))
  unfolding match_segments
  matched_static t a part parts p r h = elim (Option-cases (decode part)) [
    | inl e ↦ cc (rw e at h)
    | inr (v, e) ↦ elim (Bool-cases (str_eq t v)) [
      | inl c ↦ (rw (e, (eq_iff t v).0 c) refl, rw (e, c) at h)
      | inr c ↦ cc (rw (e, c) at h)
    ]
  ]

  matched_param :
      (t : String) (a : List Segment) (part : String) (parts : List String)
      (p r : List (String × String))
      → match_segments decode (param t ∷ a) (part ∷ parts) p ≡ ok (some r)
      → (v : String) × (match_segments decode a parts (insert t v p) ≡ ok (some r))
  unfolding match_segments
  matched_param t a part parts p r h = elim (Option-cases (decode part)) [
    | inl e ↦ cc (rw e at h)
    | inr (v, e) ↦ (v, rw e at h)
  ]

  -- Segments that match the same parts overlap everywhere.
  matched_overlap :
      (a b : List Segment) (parts : List String) (p q r s : List (String × String))
      → match_segments decode a parts p ≡ ok (some r)
      → match_segments decode b parts q ≡ ok (some s)
      → overlap_all a b ≡ true
  unfolding match_segments overlap_all
  matched_overlap [] b parts p q r s h k = refl
  matched_overlap (x ∷ a) [] parts p q r s h k = refl
  matched_overlap (static t ∷ a) (y ∷ b) [] p q r s h k = cc
  matched_overlap (param t ∷ a) (y ∷ b) [] p q r s h k = cc
  matched_overlap (static t ∷ a) (static u ∷ b) (part ∷ parts) p q r s h k =
      let (d, h') = matched_static t a part parts p r h in
      let (e, k') = matched_static u b part parts q s k in
      let same : t ≡ u = cc in rw (same, eq_refl u) (matched_overlap a b parts p q r s h' k')
  matched_overlap (static t ∷ a) (param u ∷ b) (part ∷ parts) p q r s h k =
      let (v, k') = matched_param u b part parts q s k in
      matched_overlap a b parts p (insert u v q) r s (matched_static t a part parts p r h).1 k'
  matched_overlap (param t ∷ a) (static u ∷ b) (part ∷ parts) p q r s h k =
      let (v, h') = matched_param t a part parts p r h in
      matched_overlap a b parts (insert t v p) q r s h' (matched_static u b part parts q s k).1
  matched_overlap (param t ∷ a) (param u ∷ b) (part ∷ parts) p q r s h k =
      let (v, h') = matched_param t a part parts p r h in
      let (w, k') = matched_param u b part parts q s k in
      matched_overlap a b parts (insert t v p) (insert u w q) r s h' k'

  -- A pattern that matches has as many segments as the path.
  matched_length :
      (a : RoutePattern) (pathname : String) (r : List (String × String))
      → match_route_pattern decode a pathname ≡ ok (some r)
      → (length (parts_of pathname) ≡ length a.segments)
        × (match_segments decode a.segments (parts_of pathname) [] ≡ ok (some r))
  unfolding match_route_pattern
  matched_length a pathname r h =
      elim (Bool-cases (length (parts_of pathname) == length a.segments)) [
        | inl e ↦ (ground (arith, e), rw e at h)
        | inr e ↦ cc (rw e at h)
      ]

  -- Two patterns that match one path have the same number of segments, and if they also have the
  -- same number of static ones, the test calls them ambiguous.
  pub matched-ambiguous_routes :
      (a b : RoutePattern) (pathname : String) (r s : List (String × String))
      → match_route_pattern decode a pathname ≡ ok (some r)
      → match_route_pattern decode b pathname ≡ ok (some s)
      → (length a.segments ≡ length b.segments)
        × (a.static_count ≡ b.static_count → ambiguous_routes a b ≡ true)
  unfolding ambiguous_routes
  matched-ambiguous_routes a b pathname r s h k =
      let (m, h') = matched_length a pathname r h in
      let (n, k') = matched_length b pathname s k in
      let overlapping = matched_overlap a.segments b.segments (parts_of pathname) [] [] r s h' k' in
      (omega (arith, m, n), λ c. ground (arith, m, n, c, overlapping))
