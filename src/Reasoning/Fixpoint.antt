-- ===== src/Reasoning/Fixpoint.antt =====
-- crates/core/nova-reasoning/src/fixpoint.rs: semi-naive evaluation of a rule set. `none` of an
-- `Option` is a loop that has used up its fuel, or a panic.
pub mod Derives
pub mod Fired
pub mod Correct
pub mod Derived
pub mod Grid
pub mod Loop
pub mod Round
pub mod Rounds
mod Tests
pub mod Transitive
use oxigraph_nova.Prelude.{
  ℕ, zero, suc, Option, none, some, List, [], ◌∷◌, ◌++◌, ◌==◌, if◌then◌else◌, length, get_elem?,
  get_or,
}
use oxigraph_nova.Reasoning.Row.{Row, row, set_insert, set_contains, set_extend}
use oxigraph_nova.Reasoning.Join.{
  AtomField, const, var, Atom, AtomSource, slice_source, null_source, combined_source, Found,
  leapfrog_join,
}
use oxigraph_nova.Reasoning.Rule
use oxigraph_nova.Reasoning.Rule.{RuleAtom, Rule, RuleSet, active_rules}

-- `binding[*v]` panics out of range; a head's variables are below `num_vars`.
abbrev pub resolve_head : List ℕ → AtomField → ℕ
resolve_head binding (const id) = id
resolve_head binding (var v) = get_or binding v 0

unfoldable pub project_head : RuleAtom → List ℕ → Row
project_head head binding =
    row (resolve_head binding head.s) (resolve_head binding head.p) (resolve_head binding head.o)

-- The atoms of one join: the one at `delta_pos` scans the delta.
unfoldable pub lift_atoms : AtomSource → AtomSource → ℕ → ℕ → List RuleAtom → List Atom
lift_atoms total delta delta_pos i [] = []
lift_atoms total delta delta_pos i (ra ∷ body) =
    record { s = ra.s; p = ra.p; o = ra.o; source = if i == delta_pos then delta else total }
    ∷ lift_atoms total delta delta_pos (suc i) body

abbrev pub Rows : Type 0
Rows = Option (List Row)

abbrev pub project_all : RuleAtom → List (List ℕ) → List Row
project_all head [] = []
project_all head (b ∷ bs) = project_head head b ∷ project_all head bs

abbrev pub then_append : Rows → Rows → Rows
then_append none b = none
then_append (some a) none = none
then_append (some a) (some b) = some (a ++ b)

abbrev pub projected : RuleAtom → Found → Rows
projected head none = none
projected head (some bs) = some (project_all head bs)

-- `delta_pos` from `k` on, `n` of them
unfoldable pub positions : ℕ → Rule → AtomSource → AtomSource → ℕ → ℕ → Rows
unfolding project_head lift_atoms
positions limit rule total delta k zero = some []
positions limit rule total delta k (suc n) =
    then_append
      (projected rule.head
        (leapfrog_join limit (lift_atoms total delta k 0 rule.body) rule.num_vars))
      (positions limit rule total delta (suc k) n)

unfoldable pub eval_rule_round : ℕ → Rule → AtomSource → AtomSource → Rows
unfolding positions
eval_rule_round limit rule total delta = positions limit rule total delta 0 (length rule.body)

-- The facts of one rule that are not in `total` join `new_facts`.
unfoldable pub add_new : List Row → List Row → List Row → List Row
unfolding set_insert set_contains
add_new total new_facts [] = new_facts
add_new total new_facts (d ∷ derived) =
    add_new total (if set_contains d total then new_facts else set_insert d new_facts) derived

-- `rules.rules()[rule_idx]` panics out of range.
unfoldable pub run_active :
    ℕ → List Rule → List Row → AtomSource → AtomSource → List ℕ → List Row → Rows
unfolding eval_rule_round add_new
run_active limit rules total total_src delta_src [] new_facts = some new_facts
run_active limit rules total total_src delta_src (idx ∷ active) new_facts =
    elim (get_elem? rules idx) [
      | none ↦ none
      | some rule ↦ elim (eval_rule_round limit rule total_src delta_src) [
        | none ↦ none
        | some derived ↦
            run_active limit rules total total_src delta_src active
              (add_new total new_facts derived)
      ]
    ]

-- The body of the `while`: the new facts of the active rules.
unfoldable pub round_facts : ℕ → RuleSet → AtomSource → List Row → List Row → List ℕ → Rows
unfolding run_active
round_facts limit rules store total delta active =
    run_active limit rules.rules total (combined_source store (slice_source total))
      (slice_source delta) active []

unfoldable pub fixpoint_loop : ℕ → ℕ → RuleSet → AtomSource → List Row → List Row → Rows
unfolding set_extend
fixpoint_loop limit zero rules store total delta = none
fixpoint_loop limit (suc fuel) rules store total [] = some total
fixpoint_loop limit (suc fuel) rules store total (d ∷ delta) =
    elim (active_rules rules (d ∷ delta)) [
      | [] ↦ some total
      | a ∷ active ↦ elim (round_facts limit rules store total (d ∷ delta) (a ∷ active)) [
        | none ↦ none
        | some new_facts ↦
            fixpoint_loop limit fuel rules store (set_extend total new_facts) new_facts
      ]
    ]

unfoldable pub run_fixpoint : ℕ → ℕ → RuleSet → List Row → AtomSource → Rows
unfolding fixpoint_loop set_extend
run_fixpoint limit fuel rules base store =
    let total = set_extend [] base in fixpoint_loop limit fuel rules store total total

unfoldable pub closure : ℕ → ℕ → RuleSet → List Row → Rows
unfolding run_fixpoint null_source
closure limit fuel rules base = run_fixpoint limit fuel rules base null_source

unfoldable pub closure_over_store : ℕ → ℕ → RuleSet → AtomSource → List Row → Rows
unfolding run_fixpoint
closure_over_store limit fuel rules store seed = run_fixpoint limit fuel rules seed store

unfoldable pub transitive_closure : ℕ → ℕ → Rule → List Row → Rows
unfolding closure
transitive_closure limit fuel rule base = closure limit fuel (Rule.new (rule ∷ [])) base
