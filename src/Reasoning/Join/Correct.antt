-- ===== src/Reasoning/Join/Correct.antt =====
-- join.rs, `join_step` and `leapfrog_join`: the join finds the assignments under which every atom
-- is a row of its source, and no other.
use mathlib.Core.Path.{subst}
use native.Mathlib.Nat.{mul-le-mul_right}
use oxigraph_nova.Prelude.{
  ℕ, zero, suc, ◌+◌, ◌*◌, ◌≤◌, ◌<◌, ◌≡◌, ◌↔◌, inl, inr, refl, ◌∙◌, some, List, [], ◌∷◌, true, arith,
  Bool-cases, length, length-set, map, set, get_or,
}
use oxigraph_nova.Reasoning.Row.{Row}
use oxigraph_nova.Reasoning.Keys.{In}
use oxigraph_nova.Reasoning.Trie.Scan.{row_fits-HasBound}
use oxigraph_nova.Reasoning.Join.{
  Atom, Bindings, Found, resolve, target_field, is_active_for_var, active_atoms, scan_for_var,
  join_active, join_step, any_at_end, scan_loop, range_from, unbound, leapfrog_join,
}
use oxigraph_nova.Reasoning.Join.Source.{Serves}
use oxigraph_nova.Reasoning.Join.Binding.{
  Filled, Fits, Filled-set, Fits-set, Filled-unbound, length-unbound, push_result-Enumerates,
  Fits-unbound,
}
use oxigraph_nova.Reasoning.Join.Instance.{
  instance_of, IsLinear, AllVarBelow, HasVarFrom, row_fits-instance, instance-row_fits,
  instance-target,
}
use oxigraph_nova.Reasoning.Join.Least.{any_at_end-Common}
use oxigraph_nova.Reasoning.Join.Loop.{Enumerates, Enumerates-iff, scan_loop-Enumerates, AtCommon}
use oxigraph_nova.Reasoning.Join.Scans.{
  In-active_atoms, length-active_atoms, now_or_later, active-HasVarFrom, HasVarFrom-suc,
  HasVarFrom-not, Offers, scans-Views,
}

module _ (limit : ℕ) (atoms : List Atom) (num_vars : ℕ) (M : Atom → Row → Type 0) (n : ℕ)
    (serves : (a : Atom) → In a atoms → Serves a.source (M a) n)
    (linear : (a : Atom) → In a atoms → IsLinear a)
    (below : (a : Atom) → In a atoms → AllVarBelow num_vars a)
    (covered : (v : ℕ) → v < num_vars → (a : Atom) × In a atoms × (is_active_for_var v a ≡ true))
    (enough : length atoms * n < limit) where
  -- The assignments that have the bindings, and satisfy the atoms with a variable from `k` on.
  abbrev Solves : ℕ → Bindings → List ℕ → Type 0
  Solves k b ρ = Fits b ρ × ((a : Atom) → In a atoms → HasVarFrom k a → M a (instance_of ρ a))

  abbrev ActiveAt : ℕ → List Atom → Type 0
  ActiveAt k act = (a : Atom) → In a act ↔ (In a atoms × (is_active_for_var k a ≡ true))

  abbrev AllOffer : ℕ → Bindings → List Atom → ℕ → Type 0
  AllOffer k b act val = (a : Atom) → In a act → Offers M n k b a val

  solved_here :
      (k : ℕ) (b : Bindings) (act : List Atom) (val : ℕ) (ρ : List ℕ)
      → Filled k b
      → k < length b
      → ActiveAt k act
      → AllOffer k b act val
      → Solves (suc k) (set b k (some val)) ρ
      → Solves k b ρ
  solved_here k b act val ρ filled lt actives offers (fits', later) =
      let (e, fits) = (Fits-set k b val ρ filled lt).0 fits' in
      (
        fits,
        λ a m h. elim (now_or_later k a h) [
          | inr l ↦ later a m l
          | inl (active, bound) ↦
              let (r, w, f, q) = offers a ((actives a).1 (m, active)) in
              subst (M a)
                (row_fits-instance k b ρ filled fits a r active (linear a m) bound
                  ((row_fits-HasBound (resolve b a.s) (resolve b a.p) (resolve b a.o)
                      (target_field k a) r).1
                    f)
                  (e ∙ q))
                w
        ],
      )

  solved_later :
      (k : ℕ) (b : Bindings) (act : List Atom) (ρ : List ℕ)
      → Filled k b
      → k < length b
      → ActiveAt k act
      → Solves k b ρ
      → AllOffer k b act (get_or ρ k 0) × Solves (suc k) (set b k (some (get_or ρ k 0))) ρ
  solved_later k b act ρ filled lt actives (fits, sat) = (
    λ a m.
        let (here, active) = (actives a).0 m in
        (
          instance_of ρ a,
          sat a here (active-HasVarFrom k a active),
          (row_fits-HasBound (resolve b a.s) (resolve b a.p) (resolve b a.o) (target_field k a)
                (instance_of ρ a)).0
              (instance-row_fits k b ρ filled fits a),
          instance-target k b ρ filled fits a active,
        ),
    (
      (Fits-set k b (get_or ρ k 0) ρ filled lt).1 (refl, fits),
      λ a m h. sat a m (HasVarFrom-suc k a h),
    ),
  )

  -- One variable, with the join of those behind it.
  join_active-Enumerates :
      (k : ℕ) (b : Bindings) (next : Bindings → Found) (act : List Atom)
      → Filled k b
      → k < length b
      → k < num_vars
      → ActiveAt k act
      → length act ≤ length atoms
      → ((val : ℕ) → Enumerates (next (set b k (some val))) (Solves (suc k) (set b k (some val))))
      → Enumerates (join_active limit next k b act) (Solves k b)
  unfolding join_active
  join_active-Enumerates k b next [] filled lt in_range actives small rest =
      let (a, m, active) = covered k in_range in absurd ((actives a).1 (m, active))
  join_active-Enumerates k b next (x ∷ xs) filled lt in_range actives small rest =
      let act = x ∷ xs in
      let (kss, vs, few, same) = scans-Views M n k b act (λ a m. serves a ((actives a).0 m).0) in
      let scans = map (scan_for_var k b) act in
      let le = mul-le-mul_right n small in
      elim (Bool-cases (any_at_end scans)) [
        | inl done ↦ rw done (λ ρ. (
          λ h. absurd h,
          λ s.
              any_at_end-Common scans kss (get_or ρ k 0) vs done
                ((same (get_or ρ k 0)).1 (solved_later k b act ρ filled lt actives s).0),
        ))
        | inr more ↦ rw more (
            Enumerates-iff (scan_loop limit limit next k b scans)
              (AtCommon limit next k b (λ val. Solves (suc k) (set b k (some val))) rest kss)
              (Solves k b)
              (λ ρ. (
                λ (val, c, s). solved_here k b act val ρ filled lt actives ((same val).0 c) s,
                λ s.
                    let (o, s') = solved_later k b act ρ filled lt actives s in
                    (get_or ρ k 0, (same (get_or ρ k 0)).1 o, s'),
              ))
              (scan_loop-Enumerates limit next k b (λ val. Solves (suc k) (set b k (some val))) rest
                limit (scan_for_var k b x) (map (scan_for_var k b) xs) kss vs
                (omega (arith, few, le, enough)) (omega (arith, few, le, enough))))
      ]

  join_step-Enumerates :
      (m k : ℕ) (b : Bindings)
      → Filled k b
      → length b ≡ k + m
      → k + m ≡ num_vars
      → Enumerates (join_step limit atoms (range_from k m) b) (Solves k b)
  unfolding join_step
  join_step-Enumerates zero k b filled len total_vars =
      let full : k ≡ length b = omega arith in
      Enumerates-iff _ (Fits b) (Solves k b)
        (λ ρ. (
          λ f. (
            f,
            λ a m h. absurd (
                HasVarFrom-not num_vars a (below a m)
                  (subst (λ z. HasVarFrom z a) (omega (arith, full)) h)),
          ),
          λ s. s.0,
        ))
        (push_result-Enumerates b (subst (λ z. Filled z b) full filled))
  join_step-Enumerates (suc m) k b filled len total_vars =
      join_active-Enumerates k b (join_step limit atoms (range_from (suc k) m))
        (active_atoms k atoms) filled (omega arith) (omega arith) (λ a. In-active_atoms k atoms a)
        (length-active_atoms k atoms)
        (λ val.
          join_step-Enumerates m (suc k) (set b k (some val))
            (Filled-set k b val filled (omega arith)) (omega (arith, length-set b k (some val)))
            (omega arith))

  -- On atoms without a repeated variable, each with a variable below `num_vars` and together with
  -- all of these, over sources that serve sets of rows, and with more fuel than the scans can have
  -- keys, `leapfrog_join` returns, and its results are exactly the assignments of `num_vars` ids
  -- under which every atom is a row of its source's set.
  pub leapfrog_join-Enumerates :
      ((a : Atom) → In a atoms → HasVarFrom 0 a)
      → Enumerates
          (leapfrog_join limit atoms num_vars)
          (λ ρ. (length ρ ≡ num_vars) × ((a : Atom) → In a atoms → M a (instance_of ρ a)))
  unfolding leapfrog_join
  leapfrog_join-Enumerates varied =
      Enumerates-iff _ (Solves 0 (unbound num_vars)) _
        (λ ρ. (
          λ (f, s). ((Fits-unbound num_vars ρ).0 f, λ a m. s a m (varied a m)),
          λ (e, s). ((Fits-unbound num_vars ρ).1 e, λ a m h. s a m),
        ))
        (join_step-Enumerates num_vars 0 (unbound num_vars) (Filled-unbound num_vars)
          (omega (arith, length-unbound num_vars)) (omega arith))
