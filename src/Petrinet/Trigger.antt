-- ===== src/Petrinet/Trigger.antt =====
-- What `trigger_petrinet` does (coordination_libraries/src/petrinet.c): it fires transitions until none
-- is enabled.
use ecs_private.Common.{
  ℕ, zero, suc, ◌<◌, ◌≤◌, ◌≡◌, ◌⊎◌, refl, sym, ap, ◌∙◌, inl, inr, List, [], ◌∷◌, Option, none, some,
  Bool, true, false, arith, ◌||◌, ◌&&◌, str_eq, Bool-cases, Option-cases, eq_of_some, none-ne-some,
  subst,
}
use ecs_private.Petrinet.{Graph, Behaviour, behaviour_loop, node_loop, trigger_petrinet}

module _ {M : Type 0} where
  -- One of the behaviours has a condition that holds.
  unfoldable pub some_condition : List (Behaviour M) → ℕ → M → Bool
  some_condition [] t m = false
  some_condition (b ∷ bs) t m = b.condition t m || some_condition bs t m

  module _ (graph : Graph) (behaviours : ℕ → Option (List (Behaviour M))) where
    -- The node is a transition one of whose behaviours can be carried out.
    unfoldable pub enabled : ℕ → M → Bool
    enabled t m =
        str_eq (Graph.node_type graph t) "transition"
        && elim (behaviours t) [ none ↦ false | some bs ↦ some_condition bs t m ]

    unfoldable pub some_enabled : List ℕ → M → Bool
    some_enabled [] m = false
    some_enabled (t ∷ ts) m = enabled t m || some_enabled ts m

    -- A transition fires: its first behaviour whose condition holds is carried out.
    pub data Fires : M → M → Type 0 where
      fire :
          {m m' : M}
          → (t : ℕ) (bs : List (Behaviour M)) → behaviours t ≡ some bs
          → behaviour_loop bs t m ≡ (true, m')
          → Fires m m'

    -- One transition after the other fires.
    pub data Run : M → M → Type 0 where
      rest : {m : M} → Run m m
      step : {m m' m'' : M} → Fires m m' → Run m' m'' → Run m m''

    pub Run-append : {m m' m'' : M} → Run m m' → Run m' m'' → Run m m''
    Run-append rest s = s
    Run-append (step f r) s = step f (Run-append r s)

    -- When no behaviour was carried out, no condition holds, and nothing has changed.
    idle :
        (bs : List (Behaviour M)) (t : ℕ) (m m' : M)
        → behaviour_loop bs t m ≡ (false, m')
        → (m' ≡ m) × (some_condition bs t m ≡ false)
    unfolding behaviour_loop some_condition
    idle [] t m m' e = (ap (λ (p : Bool × M). p.1) (sym e), refl)
    idle (b ∷ bs) t m m' e = elim (Bool-cases (b.condition t m)) [
      | inl holds ↦ absurd (grind (arith, ap (λ (p : Bool × M). p.0) (rw holds at e)))
      | inr fails ↦ let ih = idle bs t m m' (rw fails at e) in (ih.0, rw (fails, ih.1) refl)
    ]

    -- What one round over the nodes tells.
    pub record Round (ts : List ℕ) (still : Bool) (m : M) (s : Bool) (m' : M) : Type 0 where
      pub run : Run m m'
      pub quiet : s ≡ false → (still ≡ false) × (m' ≡ m) × (some_enabled ts m ≡ false)

    node_other :
        (t : ℕ) (ts : List ℕ) (still : Bool) (m : M)
        → str_eq (Graph.node_type graph t) "transition" ≡ false
        → node_loop graph behaviours (t ∷ ts) still m ≡ node_loop graph behaviours ts still m
    unfolding node_loop
    node_other t ts still m h = rw (h, node_loop) refl

    node_null :
        (t : ℕ) (ts : List ℕ) (still : Bool) (m : M)
        → str_eq (Graph.node_type graph t) "transition" ≡ true
        → behaviours t ≡ none
        → node_loop graph behaviours (t ∷ ts) still m ≡ none
    unfolding node_loop
    node_null t ts still m h e = rw (h, node_loop, e) refl

    node_here :
        (t : ℕ) (ts : List ℕ) (still : Bool) (m : M) (bs : List (Behaviour M))
        → str_eq (Graph.node_type graph t) "transition" ≡ true
        → behaviours t ≡ some bs
        → node_loop graph behaviours (t ∷ ts) still m
          ≡ node_loop graph behaviours ts
              (still || (behaviour_loop bs t m).0)
              (behaviour_loop bs t m).1
    unfolding node_loop
    node_here t ts still m bs h e = rw (h, node_loop, e) refl

    node_loop_lem :
        (ts : List ℕ) (still s : Bool) (m m' : M)
        → node_loop graph behaviours ts still m ≡ some (s, m')
        → Round ts still m s m'
    unfolding node_loop enabled some_enabled
    node_loop_lem [] still s m m' e =
        let p : (still, m) ≡ (s, m') = eq_of_some e in
        record {
          run = subst (Run m) (ap (λ (p : Bool × M). p.1) p) rest;
          quiet = λ q. (ap (λ (p : Bool × M). p.0) p ∙ q, ap (λ (p : Bool × M). p.1) (sym p), refl);
        }
    node_loop_lem (t ∷ ts) still s m m' e =
        elim (Bool-cases (str_eq (Graph.node_type graph t) "transition")) [
          | inr other ↦
              let r = node_loop_lem ts still s m m' (sym (node_other t ts still m other) ∙ e) in
              record {
                run = r.run;
                quiet = λ q. let a = r.quiet q in (a.0, a.1, rw (other, a.2) refl);
              }
          | inl here ↦ elim (Option-cases (behaviours t)) [
            | inl null ↦ absurd (none-ne-some (sym (node_null t ts still m here null) ∙ e))
            | inr (bs, has) ↦ elim (Bool-cases (behaviour_loop bs t m).0) [
              | inl fired ↦
                  let m1 : M = (behaviour_loop bs t m).1 in
                  let whole : behaviour_loop bs t m ≡ (true, m1) = ap (λ b. (b, m1)) fired in
                  let r =
                    node_loop_lem ts (still || (behaviour_loop bs t m).0) s m1 m'
                      (sym (node_here t ts still m bs here has) ∙ e) in
                  record {
                    run = step (fire t bs has whole) r.run;
                    quiet = λ q. absurd (grind (arith, (r.quiet q).0, fired));
                  }
              | inr not_fired ↦
                  let m1 : M = (behaviour_loop bs t m).1 in
                  let whole : behaviour_loop bs t m ≡ (false, m1) = ap (λ b. (b, m1)) not_fired in
                  let i = idle bs t m m1 whole in
                  let r =
                    node_loop_lem ts (still || (behaviour_loop bs t m).0) s m1 m'
                      (sym (node_here t ts still m bs here has) ∙ e) in
                  record {
                    run = subst (λ x. Run x m') i.0 r.run;
                    quiet = λ q.
                        let a = r.quiet q in
                        (
                          grind (arith, a.0, not_fired),
                          a.1 ∙ i.0,
                          rw (here, has, i.1) (subst (λ x. some_enabled ts x ≡ false) i.0 a.2),
                        );
                  }
            ]
          ]
        ]

    -- When the loop comes to an end, transitions have fired one after the other, and in the marking
    -- that is left none is enabled.
    pub trigger_petrinet_lem :
        (rounds : ℕ) (m m' : M)
        → trigger_petrinet graph behaviours rounds m ≡ some (false, m')
        → Run m m' × (some_enabled (Graph.nodes graph) m' ≡ false)
    unfolding trigger_petrinet
    trigger_petrinet_lem zero m m' e = cc
    trigger_petrinet_lem (suc rounds) m m' e =
        elim (Option-cases (node_loop graph behaviours (Graph.nodes graph) false m)) [
          | inl fault ↦ absurd (none-ne-some (rw fault at e))
          | inr ((s, m1), done) ↦
              let r = node_loop_lem (Graph.nodes graph) false s m m1 done in
              elim (Bool-cases s) [
                | inl still ↦
                    let ih = trigger_petrinet_lem rounds m1 m' (rw (done, still) at e) in
                    (Run-append r.run ih.0, ih.1)
                | inr stops ↦
                    let same : m1 ≡ m' =
                      ap (λ (p : Bool × M). p.1) (eq_of_some (rw (done, stops) at e)) in
                    let a = r.quiet stops in
                    (
                      subst (Run m) same r.run,
                      subst (λ x. some_enabled (Graph.nodes graph) x ≡ false) (sym a.1 ∙ same) a.2,
                    )
              ]
        ]

    module _ (measure : M → ℕ)
        (total : (t : ℕ) → (bs : List (Behaviour M)) × (behaviours t ≡ some bs))
        (less : (m m' : M) → Fires m m' → measure m' < measure m) where
      node_total :
          (ts : List ℕ) (still : Bool) (m : M)
          → (s : Bool) × (m' : M) × (node_loop graph behaviours ts still m ≡ some (s, m'))
            × (measure m' ≤ measure m)
            × ((s ≡ still) ⊎ (measure m' < measure m))
      unfolding node_loop
      node_total [] still m = (still, m, refl, omega arith, inl refl)
      node_total (t ∷ ts) still m =
          elim (Bool-cases (str_eq (Graph.node_type graph t) "transition")) [
            | inr other ↦
                let r = node_total ts still m in
                (r.0, r.1, node_other t ts still m other ∙ r.2, r.3, r.4)
            | inl here ↦
                let bs = total t in
                let m1 : M = (behaviour_loop bs.0 t m).1 in
                let r = node_total ts (still || (behaviour_loop bs.0 t m).0) m1 in
                elim (Bool-cases (behaviour_loop bs.0 t m).0) [
                  | inl fired ↦
                      let lower = less m m1 (fire t bs.0 bs.1 (ap (λ b. (b, m1)) fired)) in
                      (
                        r.0,
                        r.1,
                        node_here t ts still m bs.0 here bs.1 ∙ r.2,
                        omega (arith, r.3, lower),
                        inr (omega (arith, r.3, lower)),
                      )
                  | inr not_fired ↦
                      let same : m1 ≡ m = (idle bs.0 t m m1 (ap (λ b. (b, m1)) not_fired)).0 in
                      let equal : measure m1 ≡ measure m = ap measure same in
                      (
                        r.0,
                        r.1,
                        node_here t ts still m bs.0 here bs.1 ∙ r.2,
                        omega (arith, r.3, equal),
                        elim r.4 [
                          | inl kept ↦ inl (grind (arith, kept, not_fired))
                          | inr lower ↦ inr (omega (arith, lower, equal))
                        ],
                      )
                ]
          ]

      ends :
          (n : ℕ) (m : M)
          → measure m < n
          → (m' : M) × (trigger_petrinet graph behaviours n m ≡ some (false, m'))
      unfolding trigger_petrinet
      ends zero m lt = absurd (omega arith)
      ends (suc n) m lt =
          let r = node_total (Graph.nodes graph) false m in
          elim (Bool-cases r.0) [
            | inr stops ↦ (r.1, rw (r.2, stops) refl)
            | inl still ↦
                let lower : measure r.1 < measure m = elim r.4 [
                  | inl kept ↦ absurd (grind (arith, kept, still))
                  | inr l ↦ l
                ] in
                let again = ends n r.1 (omega (arith, lower, lt)) in
                (again.0, rw (r.2, still) again.1)
          ]

      -- If every transition has its behaviours, and firing one lowers some measure of the marking, the
      -- loop comes to an end: after at most one round more than the measure. What fired is a run,
      -- and no transition is enabled in the marking that is left.
      pub trigger_petrinet_ends :
          (m : M)
          → (m' : M) × (trigger_petrinet graph behaviours (suc (measure m)) m ≡ some (false, m'))
            × Run m m'
            × (some_enabled (Graph.nodes graph) m' ≡ false)
      trigger_petrinet_ends m =
          let r = ends (suc (measure m)) m (omega arith) in
          let q = trigger_petrinet_lem (suc (measure m)) m r.0 r.1 in (r.0, r.1, q.0, q.1)
