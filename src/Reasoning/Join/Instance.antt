-- ===== src/Reasoning/Join/Instance.antt =====
-- join.rs: which row an atom stands for under an assignment, and which rows its scan meets.
use mathlib.Core.Path.{subst}
use oxigraph_nova.Prelude.{
  ℕ, suc, ◌≤◌, ◌<◌, ◌≡◌, ◌≢◌, ◌⊎◌, inl, inr, refl, sym, ap, ◌∙◌, Option, some, List, Bool, true,
  false, ◌==◌, ◌&&◌, arith, Bool-cases, get_or,
}
use oxigraph_nova.Reasoning.Row.{Row, row, cell}
use oxigraph_nova.Reasoning.SortedVec.{row_fits, field_fits}
use oxigraph_nova.Reasoning.Join.{
  AtomField, const, var, Atom, Bindings, is_var, is_active_for_var, resolve, target_field,
}
use oxigraph_nova.Reasoning.Join.Binding.{Filled, Fits, get_or-bound, get_or-free}

-- The id that a field stands for.
abbrev pub value : List ℕ → AtomField → ℕ
value ρ (const c) = c
value ρ (var v) = get_or ρ v 0

abbrev pub instance_of : List ℕ → Atom → Row
instance_of ρ a = row (value ρ a.s) (value ρ a.p) (value ρ a.o)

-- The variables of the field are below the bound.
abbrev pub VarBelow : ℕ → AtomField → Type 0
VarBelow n (const c) = Unit
VarBelow n (var v) = v < n

abbrev pub VarFrom : ℕ → AtomField → Type 0
VarFrom n (const c) = ⊥
VarFrom n (var v) = n ≤ v

abbrev pub Differ : AtomField → AtomField → Type 0
Differ (const c) y = Unit
Differ (var v) (const c) = Unit
Differ (var v) (var w) = v ≢ w

-- No variable stands twice in the atom.
abbrev pub IsLinear : Atom → Type 0
IsLinear a = Differ a.s a.p × Differ a.s a.o × Differ a.p a.o

abbrev pub AllVarBelow : ℕ → Atom → Type 0
AllVarBelow n a = VarBelow n a.s × VarBelow n a.p × VarBelow n a.o

abbrev pub HasVarFrom : ℕ → Atom → Type 0
HasVarFrom n a = VarFrom n a.s ⊎ (VarFrom n a.p ⊎ VarFrom n a.o)

-- A variable below `suc k` that is not `k`, by standing beside `k`.
VarBelow-Differ :
    (k : ℕ) (x y : AtomField) → x ≡ var k → Differ x y → VarBelow (suc k) y → VarBelow k y
VarBelow-Differ k x (const c) e d h = tt
VarBelow-Differ k x (var w) e d h =
    let d' : k ≢ w = subst (λ z. Differ z (var w)) e d in omega (arith, d')

Differ-sym : (x y : AtomField) → Differ x y → Differ y x
Differ-sym (const c) (const b) d = tt
Differ-sym (const c) (var w) d = tt
Differ-sym (var v) (const c) d = tt
Differ-sym (var v) (var w) d = λ e. d (sym e)

is_var-true : (k : ℕ) (x : AtomField) → is_var k x ≡ true → x ≡ var k
is_var-true k (const c) h = ground arith
is_var-true k (var v) h = let e : v ≡ k = ground arith in ap var e

pub is_var-VarFrom : (k : ℕ) (x : AtomField) → is_var k x ≡ true → VarFrom k x
is_var-VarFrom k (const c) h = ground arith
is_var-VarFrom k (var v) h = ground arith

-- A field whose last variable is not before `k` has `k`, or one behind it.
pub VarFrom-split : (k : ℕ) (x : AtomField) → VarFrom k x → (is_var k x ≡ true) ⊎ VarFrom (suc k) x
VarFrom-split k (const c) h = absurd h
VarFrom-split k (var v) h = ground arith

pub VarFrom-suc : (k : ℕ) (x : AtomField) → VarFrom (suc k) x → VarFrom k x
VarFrom-suc k (const c) h = h
VarFrom-suc k (var v) h = omega arith

pub VarFrom-not : (k : ℕ) (x : AtomField) → VarBelow k x → VarFrom k x → ⊥
VarFrom-not k (const c) h f = f
VarFrom-not k (var v) h f = omega arith

-- A field with no variable from `n` on has all of them below it.
pub VarBelow-VarFrom : (n : ℕ) (x : AtomField) → VarBelow n x ⊎ VarFrom n x
VarBelow-VarFrom n (const c) = inl tt
VarBelow-VarFrom n (var v) = ground arith

parts : {x y z : Bool} → (x && (y && z)) ≡ true → (x ≡ true) × (y ≡ true) × (z ≡ true)
parts {x = true} {y = true} {z = true} e = (refl, refl, refl)
parts {x = true} {y = true} {z = false} e = ground arith
parts {x = true} {y = false} e = ground arith
parts {x = false} e = ground arith

pub row_fits-fields :
    (s p o : Option ℕ) (t : ℕ) (r : Row)
    → row_fits s p o t r ≡ true
    → (field_fits 0 s t r ≡ true) × (field_fits 1 p t r ≡ true) × (field_fits 2 o t r ≡ true)
unfolding row_fits
row_fits-fields s p o t r e =
    parts {x = field_fits 0 s t r} {y = field_fits 1 p t r} {z = field_fits 2 o t r} e

module _ (k : ℕ) (b : Bindings) (ρ : List ℕ) (filled : Filled k b) (fits : Fits b ρ) where
  resolve-value : (x : AtomField) → VarBelow k x → resolve b x ≡ some (value ρ x)
  resolve-value (const c) h = refl
  resolve-value (var v) h = get_or-bound k b ρ v filled fits h

  -- A bound field fits a row only with its value.
  field_fits-value :
      (i t : ℕ) (x : AtomField) (r : Row)
      → (i == t) ≡ false
      → VarBelow k x
      → field_fits i (resolve b x) t r ≡ true
      → cell r i ≡ value ρ x
  field_fits-value i t x r n h f = let e = rw (resolve-value x h, n) at f in ground (arith, e)

  -- An atom's own instance fits.
  value-field_fits :
      (i t : ℕ) (x : AtomField) (r : Row)
      → cell r i ≡ value ρ x
      → field_fits i (resolve b x) t r ≡ true
  value-field_fits i t (const c) r e = ground (arith, e)
  value-field_fits i t (var v) r e = elim (VarBelow-VarFrom k (var v)) [
    | inl below ↦ rw (get_or-bound k b ρ v filled fits below) (ground (arith, e))
    | inr from ↦ rw (get_or-free k b v filled from) (ground arith)
  ]

  row_eta : (r : Row) (x y z : ℕ) → cell r 0 ≡ x → cell r 1 ≡ y → cell r 2 ≡ z → r ≡ row x y z
  row_eta r x y z e f g = rw (sym e, sym f, sym g) refl

  -- The row that fits an atom whose last variable is `k` is the atom's instance.
  pub row_fits-instance :
      (a : Atom) (r : Row)
      → is_active_for_var k a ≡ true
      → IsLinear a
      → AllVarBelow (suc k) a
      → row_fits (resolve b a.s) (resolve b a.p) (resolve b a.o) (target_field k a) r ≡ true
      → get_or ρ k 0 ≡ cell r (target_field k a)
      → r ≡ instance_of ρ a
  unfolding row_fits is_active_for_var
  row_fits-instance a r active (sp, so, po) (bs, bp, bo) f e =
      let t = target_field k a in
      let (f0, f1, f2) = row_fits-fields (resolve b a.s) (resolve b a.p) (resolve b a.o) t r f in
      elim (Bool-cases (is_var k a.s)) [
        | inl at_s ↦
            let es = is_var-true k a.s at_s in
            row_eta r (value ρ a.s) (value ρ a.p) (value ρ a.o)
              (sym (ap (value ρ) es ∙ rw at_s at e))
              (field_fits-value 1 t a.p r (rw at_s refl) (VarBelow-Differ k a.s a.p es sp bp) f1)
              (field_fits-value 2 t a.o r (rw at_s refl) (VarBelow-Differ k a.s a.o es so bo) f2)
        | inr not_s ↦ elim (Bool-cases (is_var k a.p)) [
          | inl at_p ↦
              let ep = is_var-true k a.p at_p in
              row_eta r (value ρ a.s) (value ρ a.p) (value ρ a.o)
                (field_fits-value 0 t a.s r (rw (not_s, at_p) refl)
                  (VarBelow-Differ k a.p a.s ep (Differ-sym a.s a.p sp) bs) f0)
                (sym (ap (value ρ) ep ∙ rw (not_s, at_p) at e))
                (field_fits-value 2 t a.o r (rw (not_s, at_p) refl)
                  (VarBelow-Differ k a.p a.o ep po bo) f2)
          | inr not_p ↦
              let eo = is_var-true k a.o (rw (not_s, not_p) at active) in
              row_eta r (value ρ a.s) (value ρ a.p) (value ρ a.o)
                (field_fits-value 0 t a.s r (rw (not_s, not_p) refl)
                  (VarBelow-Differ k a.o a.s eo (Differ-sym a.s a.o so) bs) f0)
                (field_fits-value 1 t a.p r (rw (not_s, not_p) refl)
                  (VarBelow-Differ k a.o a.p eo (Differ-sym a.p a.o po) bp) f1)
                (sym (ap (value ρ) eo ∙ rw (not_s, not_p) at e))
        ]
      ]

  -- An atom's instance fits it, and has the value of `k` in the target's place.
  pub instance-row_fits :
      (a : Atom)
      → row_fits
          (resolve b a.s)
          (resolve b a.p)
          (resolve b a.o)
          (target_field k a)
          (instance_of ρ a)
        ≡ true
  unfolding row_fits
  instance-row_fits a =
      let r = instance_of ρ a in
      rw
        (
          value-field_fits 0 (target_field k a) a.s r refl,
          value-field_fits 1 (target_field k a) a.p r refl,
          value-field_fits 2 (target_field k a) a.o r refl,
        )
        refl

  pub instance-target :
      (a : Atom)
      → is_active_for_var k a ≡ true
      → get_or ρ k 0 ≡ cell (instance_of ρ a) (target_field k a)
  unfolding is_active_for_var
  instance-target a active = elim (Bool-cases (is_var k a.s)) [
    | inl at_s ↦ rw at_s (ap (value ρ) (sym (is_var-true k a.s at_s)))
    | inr not_s ↦ elim (Bool-cases (is_var k a.p)) [
      | inl at_p ↦ rw (not_s, at_p) (ap (value ρ) (sym (is_var-true k a.p at_p)))
      | inr not_p ↦
          let eo = is_var-true k a.o (rw (not_s, not_p) at active) in
          rw (not_s, not_p) (ap (value ρ) (sym eo))
    ]
  ]
