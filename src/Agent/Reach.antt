-- ===== src/Agent/Reach.antt =====
-- packages/ketjs/src/agent/permissions.ts: `reachOf`. `text_le` is the order of `sort()` and
-- `locale_le` that of `localeCompare`.
use Prim.Native.String.{len, slice}
use text.Mathlib.Text.{find?}
use ketjs.Common.{
  ◌+◌, String, Bool, false, ◌&&◌, ◌||◌, not, Option, none, some, List, [], ◌∷◌, ◌++◌, map, str_eq,
  if◌then◌else◌, is_empty, filter, includes, flat_map, lookup, insert, keys, sort_by,
}
use ketjs.Manifest.{Manifest, Function, View}
use ketjs.Diff.Models.{unique_from}

pub record GrantedFn : Type 0 where
  pub key : String
  pub by : String
  pub effects : List String
  pub reads : List String
  pub writes : List String
  pub enqueues : List String
  pub cross_company : Bool
  pub mutates : Bool
  pub projected : Bool
  pub returns : List String

pub record ModelReach : Type 0 where
  pub model : String
  pub read : Bool
  pub write : Bool
  pub via : List String
  pub view_fields : Option (List String)

pub record Reach : Type 0 where
  pub functions : List GrantedFn
  pub models : List ModelReach
  pub cross_company : List String
  pub unprojected : List String
  pub unknown : List String

-- `splitEffect`: the verb before the first colon and the model after it.
unfoldable pub split_effect : String → String × String
split_effect e = elim (find? e ":") [
  | none ↦ ("", e)
  | some i ↦ (slice e 0 i, slice e (i + 1) (len e))
]

abbrev pub has_verb : String → String → Bool
has_verb verb e = str_eq (split_effect e).0 verb

-- The models that the effects with one verb name.
unfoldable pub named_by : String → List String → List String
named_by verb effects = map (λ e. (split_effect e).1) (filter (has_verb verb) effects)

module _ (text_le locale_le : String → String → Bool) (manifest : Manifest) where
  unfoldable pub view_fields_of : String → Option (List String)
  view_fields_of model =
      let views = filter (λ (v : String × View). str_eq v.1.of model) manifest.views in
      if is_empty views
      then none
      else some
          (sort_by text_le (unique_from [] (flat_map (λ (v : String × View). v.1.fields) views)))

  -- `models.get(model) ?? { ... }`
  unfoldable pub slot_of : String → List (String × ModelReach) → ModelReach
  slot_of model models = elim (lookup model models) [
    | some slot ↦ slot
    | none ↦ record {
      model = model;
      read = false;
      write = false;
      via = [];
      view_fields = view_fields_of model;
    }
  ]

  -- What one effect of the function `key` sets in the slot of its model.
  unfoldable pub touched : String → String → ModelReach → ModelReach
  touched key e slot = record slot {
    read = slot.read || has_verb "read" e;
    write = slot.write || not (has_verb "read" e);
    via = if includes slot.via key then slot.via else slot.via ++ key ∷ [];
  }

  -- One round of the loop over a function's effects, for the map of models.
  unfoldable pub add_effect :
      String → String → List (String × ModelReach) → List (String × ModelReach)
  add_effect key e models =
      let model = (split_effect e).1 in
      if has_verb "enqueue" e
      then models
      else insert model (touched key e (slot_of model models)) models

  unfoldable pub add_effects :
      String → List String → List (String × ModelReach) → List (String × ModelReach)
  add_effects key [] models = models
  add_effects key (e ∷ es) models = add_effects key es (add_effect key e models)

  -- One round of the loop over the granted keys, for the map of models: an unknown key adds nothing.
  unfoldable pub add_function : String → List (String × ModelReach) → List (String × ModelReach)
  add_function key models = elim (lookup key manifest.functions) [
    | none ↦ models
    | some fn ↦ add_effects key fn.effects models
  ]

  unfoldable pub add_functions :
      List String → List (String × ModelReach) → List (String × ModelReach)
  add_functions [] models = models
  add_functions (key ∷ ks) models = add_functions ks (add_function key models)

  unfoldable pub granted_fn : String → Function → GrantedFn
  granted_fn key fn =
      let writes =
        map (λ e. (split_effect e).1)
          (filter (λ e. not (has_verb "enqueue" e) && not (has_verb "read" e)) fn.effects) in
      let enqueues = named_by "enqueue" fn.effects in
      record {
        key = key;
        by = fn.by;
        effects = fn.effects;
        reads = sort_by text_le (unique_from [] (named_by "read" fn.effects));
        writes = sort_by text_le (unique_from [] writes);
        enqueues = sort_by text_le (unique_from [] enqueues);
        cross_company = fn.cross_company;
        mutates = not (is_empty writes) || not (is_empty enqueues);
        projected = not (is_empty fn.output);
        returns = sort_by text_le (keys fn.output);
      }

  unfoldable pub granted_fns : List String → List GrantedFn
  granted_fns [] = []
  granted_fns (key ∷ ks) = elim (lookup key manifest.functions) [
    | none ↦ granted_fns ks
    | some fn ↦ granted_fn key fn ∷ granted_fns ks
  ]

  unfoldable pub unknown_keys : List String → List String
  unknown_keys [] = []
  unknown_keys (key ∷ ks) = elim (lookup key manifest.functions) [
    | none ↦ key ∷ unknown_keys ks
    | some fn ↦ unknown_keys ks
  ]

  -- `granted.sort` works in place, so the lists of keys follow its order.
  unfoldable pub reach_of : List String → Reach
  reach_of functions =
      let granted = sort_by (λ a b. locale_le a.key b.key) (granted_fns functions) in
      record {
        functions = granted;
        models =
            sort_by (λ a b. locale_le a.model b.model)
              (map (λ (e : String × ModelReach). e.1) (add_functions functions []));
        cross_company =
            map (λ (f : GrantedFn). f.key) (filter (λ (f : GrantedFn). f.cross_company) granted);
        unprojected =
            map (λ (f : GrantedFn). f.key) (filter (λ (f : GrantedFn). not f.projected) granted);
        unknown = unknown_keys functions;
      }
