-- ===== src/Routes/Compile.antt =====
-- packages/ketjs/src/kernel/routes.ts: `compileRoutes`, the table it builds and the search in it.
-- `locale_le` is the order of localeCompare.
use ketjs.Common.{
  String, Bool, false, ◌&&◌, ◌||◌, Option, none, some, List, [], ◌∷◌, ltb, ◌==◌, any, if◌then◌else◌,
  length, sort_by,
}
use ketjs.Routes.{
  RoutePattern, Result, ok, err, ambiguous, ◌>>=◌, parse_route_pattern, match_route_pattern,
  ambiguous_routes,
}

pub record Entry {ℓ} (T : Type ℓ) : Type ℓ where
  pub pattern : RoutePattern
  pub value : T

pub record Found {ℓ} (T : Type ℓ) : Type ℓ where
  pub path : String
  pub value : T
  pub params : List (String × String)

abbrev pub ambiguous_entries {ℓ} : {T : Type ℓ} → Entry T → Entry T → Bool
ambiguous_entries a b = ambiguous_routes a.pattern b.pattern

-- The two loops over the pairs of entries.
unfoldable pub any_ambiguous {ℓ} : {T : Type ℓ} → List (Entry T) → Bool
any_ambiguous [] = false
any_ambiguous (a ∷ entries) = any (ambiguous_entries a) entries || any_ambiguous entries

module _ (decode : String → Option String) (locale_le : String → String → Bool) where
  -- More static segments first, then more segments, then the order of the paths.
  unfoldable pub pattern_le : RoutePattern → RoutePattern → Bool
  pattern_le a b =
      ltb b.static_count a.static_count
      || (a.static_count == b.static_count
          && (ltb (length b.segments) (length a.segments)
              || (length a.segments == length b.segments && locale_le a.path b.path)))

  unfoldable pub parse_entries {ℓ} : {T : Type ℓ} → List (String × T) → Result (List (Entry T))
  parse_entries [] = ok []
  parse_entries ((path, value) ∷ routes) = parse_route_pattern decode path >>= λ pattern.
      parse_entries routes >>= λ rest. ok (record { pattern = pattern; value = value } ∷ rest)

  -- The table in the order of the search.
  unfoldable pub compile_routes {ℓ} : {T : Type ℓ} → List (String × T) → Result (List (Entry T))
  compile_routes routes = parse_entries routes >>= λ entries.
      if any_ambiguous entries
      then err ambiguous
      else ok (sort_by (λ a b. pattern_le a.pattern b.pattern) entries)

  -- The function that `compileRoutes` returns.
  unfoldable pub find_route {ℓ} : {T : Type ℓ} → List (Entry T) → String → Result (Option (Found T))
  find_route [] pathname = ok none
  find_route (e ∷ entries) pathname = match_route_pattern decode e.pattern pathname >>= λ matched.
      elim matched [
        | none ↦ find_route entries pathname
        | some params ↦
            ok (some (record { path = e.pattern.path; value = e.value; params = params }))
      ]
