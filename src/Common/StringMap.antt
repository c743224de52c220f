-- ===== src/Common/StringMap.antt =====
-- uthash, as the code uses it: HASH_FIND_STR, HASH_ADD_STR. The library is a parameter; the laws are
-- what its manual promises of a table whose keys are added once.
use ecs_private.Common.Tests.{if◌then◌else◌}
use ecs_private.Common.Text.{str_eq}
use Prim.Native.String.{String}
use mathlib.Core.Path.{◌≡◌, refl}
use mathlib.Core.Option.{Option, none, some}
use mathlib.Core.List.{List, [], ◌∷◌}

pub record StringMap (V : Type 0) : Type 1 where
  pub Map : Type 0
  pub empty : Map
  pub find : Map → String → Option V
  pub add : Map → String → V → Map
  pub find-empty : (k : String) → find empty k ≡ none
  pub find-add :
      (m : Map) (k j : String) (v : V)
      → find m k ≡ none
      → find (add m k v) j ≡ (if str_eq k j then some v else find m j)

module _ {V : Type 0} where
  abbrev pub assoc_find : List (String × V) → String → Option V
  assoc_find [] k = none
  assoc_find ((j, v) ∷ m) k = if str_eq j k then some v else assoc_find m k

-- The laws can be met: by a list of pairs.
abbrev pub assoc_map : (V : Type 0) → StringMap V
assoc_map V = record {
  Map = List (String × V);
  empty = [];
  find = assoc_find;
  add = λ m k v. (k, v) ∷ m;
  find-empty = λ k. refl;
  find-add = λ m k j v h. refl;
}
