-- ===== src/Agent/Inventory.antt =====
-- packages/ketjs/src/agent/permissions.ts: what there is to grant.
use ketjs.Common.{
  ℕ, String, Bool, ◌&&◌, not, Option, none, some, List, map, str_eq, if◌then◌else◌, is_empty,
  filter, length, has_key, sort_by,
}
use ketjs.Manifest.{Manifest, Function, Module, Exposure}
use ketjs.Diff.Item.{is_http}

pub record PermissionFunctionInventory : Type 0 where
  pub key : String
  pub owner : String
  pub exposure : Exposure
  pub anonymous : Bool
  pub provision : Bool
  pub grantable : Bool
  pub effects : List String
  pub cross_company : Bool
  pub idempotent : Bool
  pub dry_run : Bool
  pub agent : Bool
  pub input : List (String × String)
  pub output : List (String × String)

pub record PermissionModuleInventory : Type 0 where
  pub name : String
  pub version : String
  pub kind : String
  pub functions : List PermissionFunctionInventory

pub record Totals : Type 0 where
  pub modules : ℕ
  pub functions : ℕ
  pub grantable : ℕ
  pub anonymous : ℕ
  pub internal : ℕ
  pub provision : ℕ
  pub unprojected : ℕ

pub record PermissionInventory : Type 0 where
  pub totals : Totals
  pub modules : List PermissionModuleInventory

module _ (text_le locale_le : String → String → Bool) (manifest : Manifest) where
  -- `functionsOf`; `none` is the error for a module that is not there.
  unfoldable pub functions_of : String → Option (List String)
  functions_of owner =
      let owned =
        map (λ (e : String × Function). e.0)
          (filter (λ (e : String × Function). str_eq e.1.by owner) manifest.functions) in
      if is_empty owned && not (has_key owner manifest.modules)
      then none
      else some (sort_by text_le owned)

  unfoldable pub sorted_record : List (String × String) → List (String × String)
  sorted_record entries = sort_by (λ (a b : String × String). locale_le a.0 b.0) entries

  unfoldable pub inventory_function : String × Function → PermissionFunctionInventory
  inventory_function (key, fn) = record {
    key = key;
    owner = fn.by;
    exposure = fn.exposure;
    anonymous = fn.anonymous;
    provision = fn.provision;
    grantable = is_http fn.exposure && (not fn.anonymous && not fn.provision);
    effects = sort_by text_le fn.effects;
    cross_company = fn.cross_company;
    idempotent = fn.idempotent;
    dry_run = fn.dry_run;
    agent = fn.agent;
    input = sorted_record fn.input;
    output = sorted_record fn.output;
  }

  unfoldable pub inventory_functions : List PermissionFunctionInventory
  inventory_functions =
      map inventory_function
        (sort_by (λ (a b : String × Function). locale_le a.0 b.0) manifest.functions)

  unfoldable pub permission_inventory : PermissionInventory
  permission_inventory =
      let fns = inventory_functions in
      let sorted_modules =
        sort_by (λ (a b : String × Module). locale_le a.0 b.0) manifest.modules in
      record {
        totals = record {
          modules = length sorted_modules;
          functions = length fns;
          grantable = length (filter (λ (f : PermissionFunctionInventory). f.grantable) fns);
          anonymous = length (filter (λ (f : PermissionFunctionInventory). f.anonymous) fns);
          internal =
              length (filter (λ (f : PermissionFunctionInventory). not (is_http f.exposure)) fns);
          provision = length (filter (λ (f : PermissionFunctionInventory). f.provision) fns);
          unprojected =
              length (filter (λ (f : PermissionFunctionInventory). is_empty f.output) fns);
        };
        modules =
            map
              (λ (e : String × Module). record {
                name = e.0;
                version = e.1.version;
                kind = e.1.kind;
                functions = filter (λ (f : PermissionFunctionInventory). str_eq f.owner e.0) fns;
              })
              sorted_modules;
      }
