-- ===== src/Routes.antt =====
-- Route patterns, packages/ketjs/src/kernel/routes.ts. Text is the string methods, Compile is
-- `compileRoutes`, Apart shows what the ambiguity test excludes, Chosen which route is found.
-- `decode` is decodeURIComponent, absent where it throws.
pub mod Text
pub mod Compile
pub mod Apart
pub mod Chosen
mod Tests
use ketjs.Common.{
  ℕ, String, Bool, true, false, ◌&&◌, ◌||◌, Option, none, some, List, [], ◌∷◌, str_eq, ◌==◌,
  if◌then◌else◌, includes, length, filter, starts_with, insert,
}
use Text.{split_on, param_name, mentions, after_slash}

pub data Segment : Type 0 where
  static param : String → Segment

pub record RoutePattern : Type 0 where
  pub path : String
  pub segments : List Segment
  pub static_count : ℕ

pub data RouteError : Type 0 where
  bad_path duplicate_param bad_pattern bad_encoding ambiguous : RouteError

pub data Result {ℓ} (A : Type ℓ) : Type ℓ where
  ok : A → Result A
  err : RouteError → Result A

infixl 5 ◌>>=◌
abbrev pub ◌>>=◌ {ℓ κ} : {A : Type ℓ} {B : Type κ} → Result A → (A → Result B) → Result B
ok a >>= f = f a
err e >>= f = err e

abbrev pub or_encoding : Option String → Result String
or_encoding none = err bad_encoding
or_encoding (some s) = ok s

abbrev pub is_static : Segment → Bool
is_static (static s) = true
is_static (param s) = false

-- `path === '/' ? [] : path.slice(1).split('/')`
unfoldable pub parts_of : String → List String
parts_of path = if str_eq path "/" then [] else split_on b'/' (after_slash path)

module _ (decode : String → Option String) where
  -- The segments, with the parameter names that came before.
  unfoldable pub parse_segments : List String → List String → Result (List Segment)
  parse_segments names [] = ok []
  parse_segments names (part ∷ parts) = elim (param_name part) [
    | some name ↦
        if includes names name
        then err duplicate_param
        else (parse_segments (name ∷ names) parts >>= λ rest. ok (param name ∷ rest))
    | none ↦
        if mentions b'{' part || mentions b'}' part
        then err bad_pattern
        else (or_encoding (decode part) >>= λ text.
            parse_segments names parts >>= λ rest. ok (static text ∷ rest))
  ]

  unfoldable pub parse_route_pattern : String → Result RoutePattern
  parse_route_pattern path =
      if starts_with path "/"
      then (parse_segments [] (parts_of path) >>= λ segments. ok (record {
        path = path;
        segments = segments;
        static_count = length (filter is_static segments);
      }))
      else err bad_path

  -- The loop of `matchRoutePattern`; the parameters are a record, so that a name is set in place.
  unfoldable pub match_segments :
      List Segment → List String → List (String × String) → Result (Option (List (String × String)))
  match_segments [] [] params = ok (some params)
  match_segments [] (part ∷ parts) params = ok none
  match_segments (segment ∷ segments) [] params = ok none
  match_segments (static text ∷ segments) (part ∷ parts) params =
      or_encoding (decode part) >>= λ value.
      if str_eq text value then match_segments segments parts params else ok none
  match_segments (param name ∷ segments) (part ∷ parts) params =
      or_encoding (decode part) >>= λ value.
      match_segments segments parts (insert name value params)

  unfoldable pub match_route_pattern :
      RoutePattern → String → Result (Option (List (String × String)))
  match_route_pattern pattern pathname =
      let raw = parts_of pathname in
      if length raw == length pattern.segments
      then match_segments pattern.segments raw []
      else ok none

-- One segment of the test of `ambiguousRoutes`.
abbrev pub overlap : Segment → Segment → Bool
overlap (static a) (static b) = str_eq a b
overlap (param a) other = true
overlap (static a) (param b) = true

unfoldable pub overlap_all : List Segment → List Segment → Bool
overlap_all [] others = true
overlap_all (a ∷ segments) [] = true
overlap_all (a ∷ segments) (b ∷ others) = overlap a b && overlap_all segments others

unfoldable pub ambiguous_routes : RoutePattern → RoutePattern → Bool
ambiguous_routes a b =
    (length a.segments == length b.segments && a.static_count == b.static_count)
    && overlap_all a.segments b.segments
