-- ===== src/ReadFile/Path.antt =====
-- A name with slashes is a path in the JSON document (read_parameter_struct/src/read_file.c).
use Prim.Native.Char.{code}
use ecs_private.Common.{
  ℕ, zero, suc, ◌<◌, ◌≡◌, refl, inl, inr, List, [], ◌∷◌, Option, none, some, Bool, true, false,
  arith, ◌==◌, if◌then◌else◌, String, characters, Bool-cases,
}
use ecs_private.ReadFile.{Cjson, find_slash, get_object_item, element_loop, find_element}

-- No character of the text is a slash.
unfoldable pub has_slash : String → Bool
has_slash String.[] = false
has_slash (String.◌∷◌ c s) = let rest = has_slash s in if code c == 47 then true else rest

-- The text, a slash, and another text.
unfoldable pub join : String → String → String
join String.[] t = String.◌∷◌ "/" t
join (String.◌∷◌ c s) t = String.◌∷◌ c (join s t)

-- The names of a path, with slashes between them.
unfoldable pub path_name : String → List String → String
unfolding join
path_name name [] = name
path_name name (n ∷ ns) = join name (path_name n ns)

-- None of the names has a slash.
unfoldable pub are_names : String → List String → Bool
unfolding has_slash
are_names name [] = if has_slash name then false else true
are_names name (n ∷ ns) = let rest = are_names n ns in if has_slash name then false else rest

find_slash-join : (s t : String) → has_slash s ≡ false → find_slash (join s t) ≡ some (s, t)
unfolding find_slash join has_slash
find_slash-join String.[] t h = refl
find_slash-join (String.◌∷◌ c s) t h = elim (Bool-cases (code c == 47)) [
  | inl q ↦ ground (arith, q, h)
  | inr q ↦ rw (q, find_slash-join s t (rw q at h)) refl
]

find_slash-none : (s : String) → has_slash s ≡ false → find_slash s ≡ none
unfolding find_slash has_slash
find_slash-none String.[] h = refl
find_slash-none (String.◌∷◌ c s) h = elim (Bool-cases (code c == 47)) [
  | inl q ↦ ground (arith, q, h)
  | inr q ↦ rw (q, find_slash-none s (rw q at h)) refl
]

characters-join : (s t : String) → characters t < characters (join s t)
unfolding join
characters-join String.[] t = omega arith
characters-join (String.◌∷◌ c s) t = omega (arith, characters-join s t)

-- One member after the other.
unfoldable pub descend :
    (cjson : Cjson) → Option cjson.Node → String → List String → Option cjson.Node
descend cjson element name [] = get_object_item cjson element name
descend cjson element name (n ∷ ns) = descend cjson (get_object_item cjson element name) n ns

module _ (cjson : Cjson) where
  open cjson use {Node}

  element_loop_lem :
      (name : String) (names : List String) (rounds : ℕ) (element : Option Node)
      → are_names name names ≡ true
      → characters (path_name name names) < rounds
      → element_loop cjson rounds (path_name name names) element ≡ descend cjson element name names
  unfolding element_loop path_name are_names descend
  element_loop_lem name names zero element a h = absurd (omega arith)
  element_loop_lem name [] (suc rounds) element a h =
      rw (find_slash-none name (ground (arith, a)), element_loop) refl
  element_loop_lem name (n ∷ ns) (suc rounds) element a h =
      rw (find_slash-join name (path_name n ns) (ground (arith, a)), element_loop)
        (element_loop_lem n ns rounds (get_object_item cjson element name) (ground (arith, a))
          (omega (arith, h, characters-join name (path_name n ns))))

  -- The loop ends, and a name made of names with slashes between them is found by going down from
  -- member to member; a member that is missing on the way gives a null pointer at the end.
  pub find_element-path_name :
      (root : Node) (name : String) (names : List String)
      → are_names name names ≡ true
      → find_element cjson root (path_name name names) ≡ descend cjson (some root) name names
  unfolding find_element
  find_element-path_name root name names a =
      element_loop_lem name names (suc (characters (path_name name names))) (some root) a
        (omega arith)
