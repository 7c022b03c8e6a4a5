-- ===== src/Reasoning/Join/Binding.antt =====
-- join.rs: the bindings of `join_step`, whose first variables are bound and the others not.
use mathlib.Core.Path.{subst}
use oxigraph_nova.Prelude.{
  ℕ, zero, suc, ◌≤◌, ◌<◌, ◌≡◌, ◌↔◌, inl, inr, refl, sym, ap, none, some, List, [], ◌∷◌, arith,
  length, set, get_or,
}
use oxigraph_nova.Reasoning.Join.{Bindings, all_bound, push_result, unbound}
use oxigraph_nova.Reasoning.Join.Loop.{Enumerates}

-- The first `k` slots are bound and no other.
abbrev pub Filled : ℕ → Bindings → Type 0
Filled zero [] = Unit
Filled zero (none ∷ b) = Filled zero b
Filled zero (some w ∷ b) = ⊥
Filled (suc k) [] = ⊥
Filled (suc k) (none ∷ b) = ⊥
Filled (suc k) (some w ∷ b) = Filled k b

-- A full assignment that has the bound values.
abbrev pub Fits : Bindings → List ℕ → Type 0
Fits [] [] = Unit
Fits [] (v ∷ ρ) = ⊥
Fits (x ∷ b) [] = ⊥
Fits (none ∷ b) (v ∷ ρ) = Fits b ρ
Fits (some w ∷ b) (v ∷ ρ) = (v ≡ w) × Fits b ρ

pub Filled-unbound : (n : ℕ) → Filled 0 (unbound n)
Filled-unbound zero = tt
Filled-unbound (suc n) = Filled-unbound n

pub length-unbound : (n : ℕ) → length (unbound n) ≡ n
length-unbound zero = refl
length-unbound (suc n) = ap suc (length-unbound n)

pub Filled-set :
    (k : ℕ) (b : Bindings) (w : ℕ) → Filled k b → k < length b → Filled (suc k) (set b k (some w))
Filled-set zero [] w f h = absurd (omega arith)
Filled-set zero (none ∷ b) w f h = f
Filled-set zero (some u ∷ b) w f h = absurd f
Filled-set (suc k) [] w f h = absurd f
Filled-set (suc k) (none ∷ b) w f h = absurd f
Filled-set (suc k) (some u ∷ b) w f h = Filled-set k b w f (omega arith)

pub Fits-set :
    (k : ℕ) (b : Bindings) (w : ℕ) (ρ : List ℕ)
    → Filled k b
    → k < length b
    → Fits (set b k (some w)) ρ ↔ ((get_or ρ k 0 ≡ w) × Fits b ρ)
Fits-set zero [] w ρ f h = absurd (omega arith)
Fits-set zero (none ∷ b) w [] f h = (λ e. absurd e, λ e. absurd e.1)
Fits-set zero (none ∷ b) w (v ∷ ρ) f h = (λ e. e, λ e. e)
Fits-set zero (some u ∷ b) w ρ f h = absurd f
Fits-set (suc k) [] w ρ f h = absurd f
Fits-set (suc k) (none ∷ b) w ρ f h = absurd f
Fits-set (suc k) (some u ∷ b) w [] f h = (λ e. absurd e, λ e. absurd e.1)
Fits-set (suc k) (some u ∷ b) w (v ∷ ρ) f h =
    let rest = Fits-set k b w ρ f (omega arith) in
    (λ e. ((rest.0 e.1).0, (e.0, (rest.0 e.1).1)), λ e. (e.1.0, rest.1 (e.0, e.1.1)))

pub get_or-bound :
    (k : ℕ) (b : Bindings) (ρ : List ℕ) (v : ℕ)
    → Filled k b
    → Fits b ρ
    → v < k
    → get_or b v none ≡ some (get_or ρ v 0)
get_or-bound zero b ρ v f e h = absurd (omega arith)
get_or-bound (suc k) [] ρ v f e h = absurd f
get_or-bound (suc k) (none ∷ b) ρ v f e h = absurd f
get_or-bound (suc k) (some u ∷ b) [] v f e h = absurd e
get_or-bound (suc k) (some u ∷ b) (x ∷ ρ) zero f e h = ap some (sym e.0)
get_or-bound (suc k) (some u ∷ b) (x ∷ ρ) (suc v) f e h = get_or-bound k b ρ v f e.1 (omega arith)

pub get_or-free : (k : ℕ) (b : Bindings) (v : ℕ) → Filled k b → k ≤ v → get_or b v none ≡ none
get_or-free zero [] v f h = refl
get_or-free zero (none ∷ b) zero f h = refl
get_or-free zero (none ∷ b) (suc v) f h = get_or-free zero b v f (omega arith)
get_or-free zero (some u ∷ b) v f h = absurd f
get_or-free (suc k) [] v f h = refl
get_or-free (suc k) (none ∷ b) v f h = absurd f
get_or-free (suc k) (some u ∷ b) zero f h = absurd (omega arith)
get_or-free (suc k) (some u ∷ b) (suc v) f h = get_or-free k b v f (omega arith)

Fits-nil : (σ : List ℕ) → (σ ≡ []) ↔ Fits [] σ
Fits-nil [] = (λ e. tt, λ h. refl)
Fits-nil (v ∷ σ) = (λ e. subst (λ x. Fits [] x) (sym e) tt, λ h. absurd h)

Fits-cons :
    (b : Bindings) (w : ℕ) (ρ : List ℕ)
    → ((τ : List ℕ) → (τ ≡ ρ) ↔ Fits b τ)
    → (σ : List ℕ) → (σ ≡ w ∷ ρ) ↔ Fits (some w ∷ b) σ
Fits-cons b w ρ same [] =
    (λ e. subst (λ x. Fits (some w ∷ b) x) (sym e) (refl, (same ρ).0 refl), λ h. absurd h)
Fits-cons b w ρ same (v ∷ τ) = (
  λ e. subst (λ x. Fits (some w ∷ b) x) (sym e) (refl, (same ρ).0 refl),
  λ h. rw (h.0, (same τ).1 h.1) refl,
)

-- Full bindings are one assignment.
all_bound-Filled :
    (b : Bindings)
    → Filled (length b) b
    → (ρ : List ℕ) × (all_bound b ≡ some ρ) × ((σ : List ℕ) → (σ ≡ ρ) ↔ Fits b σ)
unfolding all_bound
all_bound-Filled [] f = ([], refl, Fits-nil)
all_bound-Filled (none ∷ b) f = absurd f
all_bound-Filled (some w ∷ b) f =
    let (ρ, e, same) = all_bound-Filled b f in (w ∷ ρ, rw e refl, Fits-cons b w ρ same)

push_result-all_bound :
    (b : Bindings) (ρ : List ℕ) → all_bound b ≡ some ρ → push_result b ≡ some (ρ ∷ [])
unfolding push_result
push_result-all_bound b ρ e = rw (push_result, e) refl

pub push_result-Enumerates :
    (b : Bindings) → Filled (length b) b → Enumerates (push_result b) (Fits b)
push_result-Enumerates b f =
    let (ρ, e, same) = all_bound-Filled b f in
    subst (λ r. Enumerates r (Fits b)) (sym (push_result-all_bound b ρ e))
      (λ σ. (λ m. elim m [ inl h ↦ (same σ).0 h | inr h ↦ absurd h ], λ h. inl ((same σ).1 h)))

pub Fits-unbound : (n : ℕ) (ρ : List ℕ) → Fits (unbound n) ρ ↔ (length ρ ≡ n)
Fits-unbound zero [] = (λ h. refl, λ h. tt)
Fits-unbound zero (v ∷ ρ) = (λ h. absurd h, λ h. ground (arith, h))
Fits-unbound (suc n) [] = (λ h. absurd h, λ h. ground (arith, h))
Fits-unbound (suc n) (v ∷ ρ) =
    let rest = Fits-unbound n ρ in (λ h. ap suc (rest.0 h), λ h. rest.1 (omega (arith, h)))
