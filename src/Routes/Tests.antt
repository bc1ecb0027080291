-- ===== src/Routes/Tests.antt =====
-- packages/ketjs/src/kernel/routes.ts: a static route and one with a parameter.
use ketjs.Common.{
  ℕ, String, Bool, true, ◌≡◌, refl, Option, some, [], ◌∷◌, In, All, IsOrder, starts_with,
}
use ketjs.Routes.{
  static, param, ok, err, bad_pattern, parts_of, parse_segments, parse_route_pattern,
  match_segments, match_route_pattern, ambiguous_routes, overlap_all,
}
use ketjs.Routes.Text.{split_on, param_name, mentions, after_slash, name_tail}
use ketjs.Routes.Compile.{
  Entry, any_ambiguous, pattern_le, parse_entries, compile_routes, find_route,
}
use ketjs.Routes.Chosen.{IsBehind, compile_routes-IsBehind}

abbrev plain : String → Option String
plain s = some s

abbrev any_order : String → String → Bool
any_order a b = true

any_order-IsOrder : IsOrder any_order
any_order-IsOrder = record { total = λ x y h. cc; trans = λ x y z h k. refl }

abbrev by_id : Entry ℕ
by_id = record {
  pattern = record {
    path = "/order/{id}";
    segments = static "order" ∷ param "id" ∷ [];
    static_count = 1;
  };
  value = 1;
}

abbrev fresh : Entry ℕ
fresh = record {
  pattern = record {
    path = "/order/new";
    segments = static "order" ∷ static "new" ∷ [];
    static_count = 2;
  };
  value = 2;
}

parsed :
    parse_entries plain any_order (("/order/{id}", 1) ∷ ("/order/new", 2) ∷ [])
    ≡ ok (by_id ∷ fresh ∷ [])
unfolding parse_entries parse_route_pattern parse_segments parts_of split_on param_name mentions
    after_slash name_tail starts_with
parsed = refl

compiled :
    compile_routes plain any_order (("/order/{id}", 1) ∷ ("/order/new", 2) ∷ [])
    ≡ ok (fresh ∷ by_id ∷ [])
unfolding compile_routes parse_entries parse_route_pattern parse_segments parts_of split_on
    param_name mentions after_slash name_tail starts_with any_ambiguous ambiguous_routes overlap_all
    pattern_le
compiled = refl

found :
    find_route plain any_order (fresh ∷ by_id ∷ []) "/order/new"
    ≡ ok (some (record { path = "/order/new"; value = 2; params = [] }))
unfolding find_route match_route_pattern match_segments parts_of split_on after_slash
found = refl

found_id :
    find_route plain any_order (fresh ∷ by_id ∷ []) "/order/7"
    ≡ ok (some (record { path = "/order/{id}"; value = 1; params = ("id", "7") ∷ [] }))
unfolding find_route match_route_pattern match_segments parts_of split_on after_slash
found_id = refl

braced : parse_route_pattern plain "/order/x{id}" ≡ err bad_pattern
unfolding parse_route_pattern parse_segments parts_of split_on param_name mentions after_slash
    name_tail starts_with
braced = refl

compile_routes-IsBehind_example :
    (e : Entry ℕ) × In e (fresh ∷ by_id ∷ [])
    × ("/order/new" ≡ e.pattern.path)
    × (2 ≡ e.value)
    × (match_route_pattern plain e.pattern "/order/new" ≡ ok (some []))
    × All (IsBehind plain any_order "/order/new" e) (by_id ∷ fresh ∷ [])
compile_routes-IsBehind_example =
    compile_routes-IsBehind plain any_order any_order-IsOrder "/order/new"
      (("/order/{id}", 1) ∷ ("/order/new", 2) ∷ []) (by_id ∷ fresh ∷ []) (fresh ∷ by_id ∷ [])
      (record { path = "/order/new"; value = 2; params = [] }) parsed compiled found
