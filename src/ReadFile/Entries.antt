-- ===== src/ReadFile/Entries.antt =====
-- What the reading of a list of parameters does (read_parameter_struct/src/read_file.c).
use ecs_private.Common.{
  ◌≡◌, refl, sym, ◌∙◌, inl, inr, List, [], ◌∷◌, ◌++◌, Option, none, some, Bool, true, false, arith,
  ◌>>=◌, String, Option-cases, append-nil, ap,
}
use ecs_private.ReadFile.{
  ParamType, int, float, char, double, other, Value, int_value, float_value, double_value,
  text_value, Cjson, Param, Status, failed, succeeded, find_element, read_value, param_loop,
  read_from_json_file, read_from_input_file, last_dot,
}

-- One of the four types that can be read.
abbrev pub is_valid : ParamType → Bool
is_valid other = false
is_valid _ = true

module _ (cjson : Cjson) where
  open cjson use {Node, Int, Double, file, parse, valueint, valuedouble, valuestring}

  -- The value that a parameter of a type has in an element.
  abbrev pub value_of : ParamType → Node → Option (Value Int Double)
  value_of int e = some (int_value (valueint e))
  value_of float e = some (float_value (valuedouble e))
  value_of double e = some (double_value (valuedouble e))
  value_of char e = elim (valuestring e) [ none ↦ none | some t ↦ some (text_value t) ]
  value_of other e = none

  module _ {S : Type 0} where
    -- The parameter has the value in the document.
    pub record Resolves (root : Node) (p : Param cjson S) (v : Value Int Double) : Type 0 where
      pub element : Node
      pub found : find_element cjson root p.param_name ≡ some element
      pub has_value : value_of p.param_type element ≡ some v

    pub data AllResolve (root : Node) : List (Param cjson S × Value Int Double) → Type 0 where
      no_params : AllResolve root []
      param :
          {p : Param cjson S} {v : Value Int Double} {pvs : List (Param cjson S × Value Int Double)}
          → Resolves root p v
          → AllResolve root pvs
          → AllResolve root ((p, v) ∷ pvs)

    -- Every value is written through its pointer, in order.
    unfoldable pub write_all : List (Param cjson S × Value Int Double) → S → Option S
    write_all [] s = some s
    write_all ((p, v) ∷ pvs) s = do s' ← p.param_pointer v s; write_all pvs s'

    abbrev pub params_of : List (Param cjson S × Value Int Double) → List (Param cjson S)
    params_of [] = []
    params_of ((p, v) ∷ pvs) = p ∷ params_of pvs

    read_value_lem :
        (p : Param cjson S) (v : Value Int Double) (e : Node) (s : S)
        → value_of p.param_type e ≡ some v
        → read_value cjson p e s ≡ (p.param_pointer v s >>= λ s'. some (some s'))
    unfolding read_value
    read_value_lem p v e s h = ground (arith, h)

    -- The parameters that have values are written, and the loop goes on behind them.
    param_loop-append :
        (root : Node) (pvs : List (Param cjson S × Value Int Double)) (ps : List (Param cjson S))
        (s : S)
        → AllResolve root pvs
        → param_loop cjson root (params_of pvs ++ ps) s
          ≡ (write_all pvs s >>= param_loop cjson root ps)
    unfolding param_loop write_all
    param_loop-append root pvs ps s no_params = refl
    param_loop-append root ((p, v) ∷ pvs) ps s (param r rs) =
        rw (r.found, param_loop, read_value_lem p v r.element s r.has_value)
          (elim (Option-cases (p.param_pointer v s)) [
            | inl fault ↦ rw fault refl
            | inr (s', done) ↦ rw done (param_loop-append root pvs ps s' rs)
          ])

    reads_document :
        (filename buffer : String) (root : Node) (ps : List (Param cjson S)) (status : Status)
        (s : S)
        → last_dot filename ≡ some ".json"
        → file filename ≡ some buffer
        → parse buffer ≡ some root
        → read_from_input_file cjson filename ps status s ≡ param_loop cjson root ps s
    unfolding read_from_input_file
    reads_document filename buffer root ps status s x f p = rw (x, f, read_from_json_file, p) refl

    loop_ends : (root : Node) (s : S) → param_loop cjson root [] s ≡ some (succeeded, s)
    unfolding param_loop
    loop_ends root s = refl

    all_params :
        (pvs : List (Param cjson S × Value Int Double)) → params_of pvs ++ [] ≡ params_of pvs
    all_params pvs = append-nil (params_of pvs)

    -- When the file has a JSON document in which every parameter has a value of its type, the
    -- reading writes each of these values through its pointer, in the order of the parameters, and
    -- reports success.
    pub read_all :
        (filename buffer : String) (root : Node) (pvs : List (Param cjson S × Value Int Double))
        (status : Status) (s : S)
        → last_dot filename ≡ some ".json"
        → file filename ≡ some buffer
        → parse buffer ≡ some root
        → AllResolve root pvs
        → read_from_input_file cjson filename (params_of pvs) status s
          ≡ (write_all pvs s >>= λ s'. some (succeeded, s'))
    read_all filename buffer root pvs status s x f p r =
        reads_document filename buffer root (params_of pvs) status s x f p
        ∙ ap (λ ps. param_loop cjson root ps s) (sym (all_params pvs))
        ∙ param_loop-append root pvs [] s r
        ∙ elim (Option-cases (write_all pvs s)) [
          | inl fault ↦ rw fault refl
          | inr (s', done) ↦ rw done (loop_ends root s')
        ]

    invalid :
        (t : ParamType) (s : S)
        → is_valid t ≡ true
        → elim t as (λ x. Option (Status × S)) [ other ↦ some (failed, s) | _ ↦ none ] ≡ none
    invalid t s h = ground (arith, h)

    missing_faults :
        (root : Node) (p : Param cjson S) (ps : List (Param cjson S)) (s : S)
        → find_element cjson root p.param_name ≡ none
        → is_valid p.param_type ≡ true
        → param_loop cjson root (p ∷ ps) s ≡ none
    unfolding param_loop
    missing_faults root p ps s e t = rw (e, param_loop) (invalid p.param_type s t)

    -- The document lacks a parameter, has a value of its type for each parameter that stands before
    -- it in the list, and these values can be written. Then the reading of those before it alone
    -- writes their values and reports success; but the reading of the list that goes on with the
    -- missing one, whatever follows, reports no failure: it reads through a null pointer.
    pub read_missing :
        (filename buffer : String) (root : Node) (pvs : List (Param cjson S × Value Int Double))
        (p : Param cjson S) (ps : List (Param cjson S)) (status : Status) (s s' : S)
        → last_dot filename ≡ some ".json"
        → file filename ≡ some buffer
        → parse buffer ≡ some root
        → AllResolve root pvs
        → write_all pvs s ≡ some s'
        → find_element cjson root p.param_name ≡ none
        → is_valid p.param_type ≡ true
        → (read_from_input_file cjson filename (params_of pvs) status s ≡ some (succeeded, s'))
          × (read_from_input_file cjson filename (params_of pvs ++ p ∷ ps) status s ≡ none)
    read_missing filename buffer root pvs p ps status s s' x f q r w e t = (
      read_all filename buffer root pvs status s x f q r ∙ rw w refl,
      reads_document filename buffer root (params_of pvs ++ p ∷ ps) status s x f q
          ∙ param_loop-append root pvs (p ∷ ps) s r
          ∙ rw w (missing_faults root p ps s' e t),
    )
