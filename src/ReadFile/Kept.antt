-- ===== src/ReadFile/Kept.antt =====
-- What the reading of a file leaves alone
-- (mobile_platform_5c/baseline/read_parameter_struct/src/read_file.c).
use ecs_private.Common.{
  ◌≡◌, refl, sym, ap, ◌∙◌, List, [], ◌∷◌, Option, none, some, eq_of_some, >>=-eq-some, String,
  arith, All, Option-cases, inl, inr,
}
use ecs_private.ReadFile.{
  Cjson, ParamType, other, Value, Status, failed, Param, find_element, read_value, param_loop,
  read_from_json_file, read_from_input_file,
}

module _ (cjson : Cjson) {S A : Type 0} (part : S → A) where
  open cjson use {Node, Int, Double, file, parse, valuestring}

  -- A write through the pointer leaves the part alone.
  abbrev pub Keeps : Param cjson S → Type 0
  Keeps p = (v : Value Int Double) (s s' : S) → p.param_pointer v s ≡ some s' → part s' ≡ part s

  read_value-part :
      (p : Param cjson S)
      → Keeps p
      → (n : Node) (s s' : S) → read_value cjson p n s ≡ some (some s')
      → part s' ≡ part s
  unfolding read_value
  read_value-part p k n s s' e = grind (arith, e, k)

  after :
      (result : Option S) (failing : Status × S) (next : S → Option (Status × S)) (s : S)
      (r : Status × S)
      → part failing.1 ≡ part s
      → ((s' : S) → result ≡ some s' → part s' ≡ part s)
      → ((s' : S) → next s' ≡ some r → part r.1 ≡ part s')
      → elim result [ none ↦ some failing | some s' ↦ next s' ] ≡ some r
      → part r.1 ≡ part s
  after none failing next s r f k n e = ap (λ (r : Status × S). part r.1) (sym (eq_of_some e)) ∙ f
  after (some s') failing next s r f k n e = n s' e ∙ k s' refl

  unread :
      (t : ParamType) (s : S) (r : Status × S)
      → elim t as (λ x. Option (Status × S)) [ other ↦ some (failed, s) | _ ↦ none ] ≡ some r
      → part r.1 ≡ part s
  unread t s r e = ground arith

  param_loop-part :
      (ps : List (Param cjson S))
      → All Keeps ps
      → (root : Node) (s : S) (r : Status × S) → param_loop cjson root ps s ≡ some r
      → part r.1 ≡ part s
  unfolding param_loop
  param_loop-part [] k root s r e = ap (λ (r : Status × S). part r.1) (sym (eq_of_some e))
  param_loop-part (p ∷ ps) k root s r e =
      elim (Option-cases (find_element cjson root p.param_name)) [
        | inl missing ↦ unread p.param_type s r (rw (missing, param_loop) at e)
        | inr (n, found) ↦
            let v = >>=-eq-some (read_value cjson p n s) _ (rw (found, param_loop) at e) in
            after v.0 (failed, s) (param_loop cjson root ps) s r refl
              (λ s' same. read_value-part p k.0 n s s' (v.1 ∙ ap some same))
              (λ s' done. param_loop-part ps k.1 root s' r done) v.2
      ]

  -- A part of the data that no parameter is written to is as it was, however the reading ends.
  pub read_from_input_file-part :
      (filename : String) (ps : List (Param cjson S)) (before : Status) (s : S) (r : Status × S)
      → All Keeps ps
      → read_from_input_file cjson filename ps before s ≡ some r
      → part r.1 ≡ part s
  unfolding read_from_input_file read_from_json_file
  read_from_input_file-part filename ps before s r k e = grind (arith, e, param_loop-part ps k)
