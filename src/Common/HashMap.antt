-- ===== src/Common/HashMap.antt =====
-- uthash with other keys, as the code uses it: HASH_FIND, HASH_ADD. `same` compares two keys byte by
-- byte. The laws are what the manual promises of a table whose keys are added once.
use ecs_private.Common.Tests.{if◌then◌else◌}
use mathlib.Core.Bool.{Bool}
use mathlib.Core.Path.{◌≡◌, refl}
use mathlib.Core.Option.{Option, none, some}
use mathlib.Core.List.{List, [], ◌∷◌}

pub record HashMap (K : Type 0) (same : K → K → Bool) (V : Type 0) : Type 1 where
  pub Map : Type 0
  pub empty : Map
  pub find : Map → K → Option V
  pub add : Map → K → V → Map
  pub find-empty : (k : K) → find empty k ≡ none
  pub find-add :
      (m : Map) (k j : K) (v : V)
      → find m k ≡ none
      → find (add m k v) j ≡ (if same k j then some v else find m j)

module _ {K : Type 0} (same : K → K → Bool) {V : Type 0} where
  abbrev pub pairs_find : List (K × V) → K → Option V
  pairs_find [] k = none
  pairs_find ((j, v) ∷ m) k = if same j k then some v else pairs_find m k

-- The laws can be met: by a list of pairs.
abbrev pub pairs_map : {K : Type 0} (same : K → K → Bool) (V : Type 0) → HashMap K same V
pairs_map {K} same V = record {
  Map = List (K × V);
  empty = [];
  find = pairs_find same;
  add = λ m k v. (k, v) ∷ m;
  find-empty = λ k. refl;
  find-add = λ m k j v h. refl;
}
