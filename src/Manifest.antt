-- ===== src/Manifest.antt =====
-- The part of the composed manifest that upgrade diffs, permission reports and menus read,
-- packages/ketjs/src/types.ts. A record with string keys is the list of its entries; an optional
-- field is an Option, and an optional boolean is a Bool, as the code reads both.
use ketjs.Common.{ℕ, String, Bool, Option, List}

pub data FieldBase : Type 0 where
  id text int float decimal bool json date datetime ref : FieldBase

pub data ModelScope : Type 0 where
  shared company company_branch : ModelScope

pub record Field : Type 0 where
  pub base : FieldBase
  pub target : Option String
  pub optional : Bool
  pub by : String
  pub sensitive : Bool
  pub personal : Bool

pub record Model : Type 0 where
  pub owner : String
  pub scope : ModelScope
  pub append : Bool
  pub fields : List (String × Field)

pub data Exposure : Type 0 where
  http internal : Exposure

pub record Function : Type 0 where
  pub by : String
  pub exposure : Exposure
  pub anonymous : Bool
  pub provision : Bool
  pub effects : List String
  pub cross_company : Bool
  pub idempotent : Bool
  pub transactional : Bool
  pub dry_run : Bool
  pub agent : Bool
  pub input : List (String × String)
  pub output : List (String × String)
  pub returns : Option String

pub record Permissions : Type 0 where
  pub risks : List (String × String)
  pub bundles : List (String × List String)
  pub role_templates : List (String × List String)

pub record Fill : Type 0 where
  pub joint : String
  pub by : String

pub record View : Type 0 where
  pub of : String
  pub fields : List String

pub record BackgroundJob : Type 0 where
  pub input : List (String × String)
  pub queue : String

pub record Report : Type 0 where
  pub target : String
  pub source : String

pub record Patch : Type 0 where
  pub by : String
  pub target : String
  pub reason : String

pub record Module : Type 0 where
  pub version : String
  pub kind : String

pub record MenuDef : Type 0 where
  pub label : String
  pub by : String
  pub parent : Option String
  pub path : Option String
  pub needs : Option String
  pub for_work : List String
  pub icon : Option String
  pub sequence : Option ℕ

pub record Manifest : Type 0 where
  pub modules : List (String × Module)
  pub models : List (String × Model)
  pub menus : List (String × MenuDef)
  pub joints : List String
  pub fills : List Fill
  pub functions : List (String × Function)
  pub permissions : Permissions
  pub jobs : List (String × BackgroundJob)
  pub views : List (String × View)
  pub reports : List (String × Report)
  pub required_regions : List String
  pub provided_regions : List String
  pub patches : List Patch
