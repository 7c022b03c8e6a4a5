-- ===== src/Reasoning/Rule.antt =====
-- crates/core/nova-reasoning/src/rule.rs: rules as data, and the index of rules by predicate.
pub mod Active
pub mod Index
pub mod Predicates
use oxigraph_nova.Prelude.{
  ℕ, suc, Bool, true, false, ◌||◌, List, [], ◌∷◌, ◌++◌, ltb, ◌==◌, if◌then◌else◌,
}
use oxigraph_nova.Reasoning.Row.{Row}
use oxigraph_nova.Reasoning.Join.{AtomField, const, var}

pub record RuleAtom : Type 0 where
  pub s : AtomField
  pub p : AtomField
  pub o : AtomField

abbrev pub atom : AtomField → AtomField → AtomField → RuleAtom
atom a b c = record { s = a; p = b; o = c }

-- `name` is for the reader alone, and is left out.
pub record Rule : Type 0 where
  pub body : List RuleAtom
  pub head : RuleAtom
  pub num_vars : ℕ

abbrev rule : List RuleAtom → RuleAtom → ℕ → Rule
rule b h n = record { body = b; head = h; num_vars = n }

module _ (predicate : ℕ) where
  unfoldable pub transitive : Rule
  transitive =
      rule (atom (var 0) (const predicate) (var 1) ∷ atom (var 1) (const predicate) (var 2) ∷ [])
        (atom (var 0) (const predicate) (var 2)) 3

unfoldable pub type_propagation : ℕ → ℕ → Rule
type_propagation rdf_type sub_class_of =
    rule (atom (var 0) (const rdf_type) (var 1) ∷ atom (var 1) (const sub_class_of) (var 2) ∷ [])
      (atom (var 0) (const rdf_type) (var 2)) 3

unfoldable pub subproperty_propagation : ℕ → Rule
subproperty_propagation sub_property_of =
    rule (atom (var 0) (const sub_property_of) (var 1) ∷ atom (var 2) (var 0) (var 3) ∷ [])
      (atom (var 2) (var 1) (var 3)) 4

unfoldable pub domain : ℕ → ℕ → Rule
domain rdfs_domain rdf_type =
    rule (atom (var 0) (const rdfs_domain) (var 1) ∷ atom (var 2) (var 0) (var 3) ∷ [])
      (atom (var 2) (const rdf_type) (var 1)) 4

unfoldable pub range : ℕ → ℕ → Rule
range rdfs_range rdf_type =
    rule (atom (var 0) (const rdfs_range) (var 1) ∷ atom (var 2) (var 0) (var 3) ∷ [])
      (atom (var 3) (const rdf_type) (var 1)) 4

unfoldable pub transitive_property : ℕ → ℕ → Rule
transitive_property rdf_type owl_transitive_property =
    rule
      (atom (var 0) (const rdf_type) (const owl_transitive_property)
        ∷ atom (var 1) (var 0) (var 2)
        ∷ atom (var 2) (var 0) (var 3)
        ∷ [])
      (atom (var 1) (var 0) (var 3)) 4

unfoldable pub symmetric_property : ℕ → ℕ → Rule
symmetric_property rdf_type owl_symmetric_property =
    rule
      (atom (var 0) (const rdf_type) (const owl_symmetric_property)
        ∷ atom (var 1) (var 0) (var 2)
        ∷ [])
      (atom (var 2) (var 0) (var 1)) 3

unfoldable pub equivalent_class_forward : ℕ → ℕ → Rule
equivalent_class_forward owl_equivalent_class rdfs_sub_class_of =
    rule (atom (var 0) (const owl_equivalent_class) (var 1) ∷ [])
      (atom (var 0) (const rdfs_sub_class_of) (var 1)) 2

unfoldable pub equivalent_class_backward : ℕ → ℕ → Rule
equivalent_class_backward owl_equivalent_class rdfs_sub_class_of =
    rule (atom (var 0) (const owl_equivalent_class) (var 1) ∷ [])
      (atom (var 1) (const rdfs_sub_class_of) (var 0)) 2

unfoldable pub equivalent_property_forward : ℕ → ℕ → Rule
equivalent_property_forward owl_equivalent_property rdfs_sub_property_of =
    rule (atom (var 0) (const owl_equivalent_property) (var 1) ∷ [])
      (atom (var 0) (const rdfs_sub_property_of) (var 1)) 2

unfoldable pub equivalent_property_backward : ℕ → ℕ → Rule
equivalent_property_backward owl_equivalent_property rdfs_sub_property_of =
    rule (atom (var 0) (const owl_equivalent_property) (var 1) ∷ [])
      (atom (var 1) (const rdfs_sub_property_of) (var 0)) 2

unfoldable pub inverse_forward : ℕ → Rule
inverse_forward owl_inverse_of =
    rule (atom (var 0) (const owl_inverse_of) (var 1) ∷ atom (var 2) (var 0) (var 3) ∷ [])
      (atom (var 3) (var 1) (var 2)) 4

unfoldable pub inverse_backward : ℕ → Rule
inverse_backward owl_inverse_of =
    rule (atom (var 0) (const owl_inverse_of) (var 1) ∷ atom (var 2) (var 1) (var 3) ∷ [])
      (atom (var 3) (var 0) (var 2)) 4

unfoldable pub body_predicates : List RuleAtom → List ℕ
body_predicates [] = []
body_predicates (a ∷ body) =
    let rest = body_predicates body in elim a.p [ const id ↦ id ∷ rest | var _ ↦ rest ]

unfoldable pub has_variable_predicate : List RuleAtom → Bool
has_variable_predicate [] = false
has_variable_predicate (a ∷ body) =
    elim a.p [ const _ ↦ false | var _ ↦ true ] || has_variable_predicate body

-- A `HashMap<u64, Vec<usize>>`, as the function that `get` is, with `[]` for a missing key.
abbrev pub Index : Type 0
Index = ℕ → List ℕ

-- `entry(pred).or_default().push(idx)`
abbrev pub push_at : Index → ℕ → ℕ → Index
push_at m k idx j = if k == j then m j ++ idx ∷ [] else m j

pub record RuleSet : Type 0 where
  pub rules : List Rule
  pub by_predicate : Index
  pub wildcard_rules : List ℕ

unfoldable pub has : ℕ → List ℕ → Bool
has v [] = false
has v (w ∷ ws) = v == w || has v ws

-- The inner loop of `RuleSet::new`: `seen` skips a predicate's second occurrence.
unfoldable pub index_rule : ℕ → List ℕ → List ℕ → Index → Index
unfolding has
index_rule idx seen [] m = m
index_rule idx seen (k ∷ preds) m =
    index_rule idx (k ∷ seen) preds (if has k seen then m else push_at m k idx)

unfoldable pub index_rules : ℕ → List Rule → Index → Index
unfolding index_rule body_predicates
index_rules idx [] m = m
index_rules idx (r ∷ rules) m =
    index_rules (suc idx) rules (index_rule idx [] (body_predicates r.body) m)

unfoldable pub wildcards : ℕ → List Rule → List ℕ
unfolding has_variable_predicate
wildcards idx [] = []
wildcards idx (r ∷ rules) =
    let rest = wildcards (suc idx) rules in
    if has_variable_predicate r.body then idx ∷ rest else rest

unfoldable pub new : List Rule → RuleSet
unfolding index_rules wildcards
new rules = record {
  rules = rules;
  by_predicate = index_rules 0 rules (λ _. []);
  wildcard_rules = wildcards 0 rules;
}

-- A set of indices, in ascending order: `HashSet` followed by `sort_unstable`.
unfoldable pub index_insert : ℕ → List ℕ → List ℕ
index_insert v [] = v ∷ []
index_insert v (w ∷ ws) =
    let rest = index_insert v ws in
    if ltb v w then v ∷ w ∷ ws else if v == w then w ∷ ws else w ∷ rest

unfoldable pub index_extend : List ℕ → List ℕ → List ℕ
unfolding index_insert
index_extend set [] = set
index_extend set (v ∷ vs) = index_extend (index_insert v set) vs

unfoldable pub activate : RuleSet → List Row → List ℕ → List ℕ
unfolding index_extend
activate rs [] active = active
activate rs (row ∷ delta) active = activate rs delta (index_extend active (rs.by_predicate row.p))

unfoldable pub active_rules : RuleSet → List Row → List ℕ
unfolding activate
active_rules rs delta = activate rs delta (index_extend [] rs.wildcard_rules)
