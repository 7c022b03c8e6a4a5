-- ===== src/Reasoning/Rule/Active.antt =====
-- rule.rs, `RuleSet`: which rules the index gives for a delta.
use mathlib.Core.Path.{subst}
use mathlib.Core.Option.{some-injective}
use oxigraph_nova.Prelude.{
  ℕ, zero, suc, ◌+◌, ◌<◌, ◌≡◌, ◌↔◌, ◌⊎◌, inl, inr, sym, ap, some, List, [], ◌∷◌, arith, get_elem?,
}
use oxigraph_nova.Reasoning.Row.{Row}
use oxigraph_nova.Reasoning.Keys.{In, Ascending, Above, Above-le}
use oxigraph_nova.Reasoning.Join.{const, var}
use oxigraph_nova.Reasoning.Rule.{
  RuleAtom, Rule, RuleSet, wildcards, new, index_insert, index_extend, activate, active_rules,
}
use oxigraph_nova.Reasoning.Rule.Predicates.{In-body_predicates, has_variable_predicate-var}
use oxigraph_nova.Reasoning.Rule.Index.{
  At, Indexed, In-index_extend, In-activate, In-index_rules, In-wildcards,
}

-- Some atom of the rule's body has a variable predicate, or that of a row.
abbrev pub Matches : Rule → List Row → Type 0
Matches r delta =
    (a : RuleAtom) × In a r.body
    × (((v : ℕ) × (a.p ≡ var v)) ⊎ ((row : Row) × In row delta × (a.p ≡ const row.p)))

At-get_elem? :
    (k : ℕ) (rules : List Rule) (x : ℕ) (r : Rule)
    → At k rules x r
    → (i : ℕ) × (x ≡ k + i) × (get_elem? rules i ≡ some r)
At-get_elem? k [] x r h = absurd h
At-get_elem? k (q ∷ rules) x r (inl (e, g)) = (0, omega (arith, e), ap some (sym g))
At-get_elem? k (q ∷ rules) x r (inr h) =
    let (i, e, g) = At-get_elem? (suc k) rules x r h in (suc i, omega (arith, e), g)

get_elem?-At :
    (k : ℕ) (rules : List Rule) (i : ℕ) (r : Rule)
    → get_elem? rules i ≡ some r
    → At k rules (k + i) r
get_elem?-At k [] i r h = ground arith
get_elem?-At k (q ∷ rules) zero r h = inl (omega arith, sym (some-injective q r h))
get_elem?-At k (q ∷ rules) (suc i) r h =
    inr (subst (λ z. At (suc k) rules z r) (omega arith) (get_elem?-At (suc k) rules i r h))

found : (rules : List Rule) (x : ℕ) (r : Rule) → At 0 rules x r → get_elem? rules x ≡ some r
found rules x r h =
    let (i, e, g) = At-get_elem? 0 rules x r h in
    subst (λ z. get_elem? rules z ≡ some r) (omega (arith, e)) g

placed : (rules : List Rule) (x : ℕ) (r : Rule) → get_elem? rules x ≡ some r → At 0 rules x r
placed rules x r h = subst (λ z. At 0 rules z r) (omega arith) (get_elem?-At 0 rules x r h)

Above-index_insert : (k v : ℕ) (ws : List ℕ) → k < v → Above k ws → Above k (index_insert v ws)
unfolding index_insert
Above-index_insert k v [] h a = (h, tt)
Above-index_insert k v (w ∷ ws) h a = ground (arith, Above-index_insert k v ws)

Ascending-index_insert : (v : ℕ) (ws : List ℕ) → Ascending ws → Ascending (index_insert v ws)
unfolding index_insert
Ascending-index_insert v [] a = (tt, tt)
Ascending-index_insert v (w ∷ ws) a =
    ground (arith, Ascending-index_insert v ws, Above-index_insert w v ws, Above-le v w ws)

Ascending-index_extend : (set vs : List ℕ) → Ascending set → Ascending (index_extend set vs)
unfolding index_extend
Ascending-index_extend set [] a = a
Ascending-index_extend set (v ∷ vs) a =
    Ascending-index_extend (index_insert v set) vs (Ascending-index_insert v set a)

Ascending-activate :
    (rs : RuleSet) (delta : List Row) (active : List ℕ)
    → Ascending active
    → Ascending (activate rs delta active)
unfolding activate
Ascending-activate rs [] active a = a
Ascending-activate rs (q ∷ delta) active a =
    Ascending-activate rs delta (index_extend active (rs.by_predicate q.p))
      (Ascending-index_extend active (rs.by_predicate q.p) a)

pub Ascending-active_rules :
    (rules : List Rule) (delta : List Row) → Ascending (active_rules (new rules) delta)
unfolding active_rules
Ascending-active_rules rules delta =
    Ascending-activate (new rules) delta (index_extend [] (new rules).wildcard_rules)
      (Ascending-index_extend [] (new rules).wildcard_rules tt)

In-active_rules :
    (rules : List Rule) (delta : List Row) (x : ℕ)
    → In x (active_rules (new rules) delta)
      ↔ (In x (wildcards 0 rules) ⊎ ((row : Row) × In row delta × Indexed 0 rules row.p x))
unfolding active_rules new
In-active_rules rules delta x =
    let base = index_extend [] (wildcards 0 rules) in
    let wild = In-index_extend x [] (wildcards 0 rules) in
    let all = In-activate (new rules) delta base x in
    (
      λ h. elim (all.0 h) [
        | inl a ↦ elim (wild.0 a) [ inl b ↦ absurd b | inr b ↦ inl b ]
        | inr (row, m, i) ↦ elim ((In-index_rules 0 rules (λ _. []) row.p x).0 i) [
          | inl b ↦ absurd b
          | inr b ↦ inr (row, m, b)
        ]
      ],
      λ h. elim h [
        | inl b ↦ all.1 (inl (wild.1 (inr b)))
        | inr (row, m, b) ↦
            all.1 (inr (row, m, (In-index_rules 0 rules (λ _. []) row.p x).1 (inr b)))
      ],
    )

-- The active rules, by their places in ascending order, are those that have an atom whose
-- predicate is a variable or the predicate of a row of the delta.
pub active_rules-Matches :
    (rules : List Rule) (delta : List Row)
    → Ascending (active_rules (new rules) delta)
      × ((idx : ℕ)
          → In idx (active_rules (new rules) delta)
            ↔ ((r : Rule) × (get_elem? rules idx ≡ some r) × Matches r delta))
active_rules-Matches rules delta = (
  Ascending-active_rules rules delta,
  λ idx.
      let whole = In-active_rules rules delta idx in
      (
        λ h. elim (whole.0 h) [
          | inl w ↦
              let (r, place, open_pred) = (In-wildcards 0 rules idx).0 w in
              let (a, m, v) = (has_variable_predicate-var r.body).0 open_pred in
              (r, found rules idx r place, (a, m, inl v))
          | inr (row, here, (r, place, pred)) ↦
              let (a, m, e) = (In-body_predicates row.p r.body).0 pred in
              (r, found rules idx r place, (a, m, inr (row, here, e)))
        ],
        λ (r, at_place, (a, m, way)).
            let place = placed rules idx r at_place in
            elim way [
              | inl v ↦ whole.1 (
                  inl (
                    (In-wildcards 0 rules idx).1
                      (r, place, (has_variable_predicate-var r.body).1 (a, m, v))))
              | inr (row, here, e) ↦
                  whole.1
                    (inr (row, here, (r, place, (In-body_predicates row.p r.body).1 (a, m, e))))
            ],
      ),
)
