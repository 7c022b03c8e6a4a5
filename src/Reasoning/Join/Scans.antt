-- ===== src/Reasoning/Join/Scans.antt =====
-- join.rs: the atoms that take part in a step of the join, and what their scans meet.
use mathlib.Core.Path.{subst}
use native.Mathlib.Nat.{suc-mul}
use oxigraph_nova.Prelude.{
  ℕ, suc, ◌*◌, ◌≤◌, ◌≡◌, ◌↔◌, ◌⊎◌, inl, inr, refl, sym, ap, ◌∙◌, List, [], ◌∷◌, Bool, true, false,
  arith, Bool-cases, length, map,
}
use oxigraph_nova.Reasoning.Row.{Row}
use oxigraph_nova.Reasoning.Keys.{In}
use oxigraph_nova.Reasoning.Join.{
  AtomField, Atom, Bindings, is_var, is_active_for_var, active_atoms, scan_for_var, target_field,
  resolve,
}
use oxigraph_nova.Reasoning.Join.Source.{Serves, Offered}
use oxigraph_nova.Reasoning.Join.Instance.{
  VarBelow, VarFrom, AllVarBelow, HasVarFrom, is_var-VarFrom, VarFrom-split, VarFrom-suc,
  VarFrom-not, VarBelow-VarFrom,
}
use oxigraph_nova.Reasoning.Join.Sync.{Views, Common, total}

clash : (x : Bool) → x ≡ true → x ≡ false → ⊥
clash true e f = ground arith
clash false e f = ground arith

-- `active_atoms` keeps the atoms that have the variable.
pub In-active_atoms :
    (v : ℕ) (atoms : List Atom) (a : Atom)
    → In a (active_atoms v atoms) ↔ (In a atoms × (is_active_for_var v a ≡ true))
unfolding active_atoms
In-active_atoms v [] a = (λ h. absurd h, λ h. absurd h.0)
In-active_atoms v (x ∷ xs) a =
    let rest = In-active_atoms v xs a in
    elim (Bool-cases (is_active_for_var v x)) [
      | inl on ↦ rw on (
        λ m. elim m [
          | inl e ↦ (inl e, ap (is_active_for_var v) e ∙ on)
          | inr h ↦ (inr (rest.0 h).0, (rest.0 h).1)
        ],
        λ (m, act). elim m [ inl e ↦ inl e | inr h ↦ inr (rest.1 (h, act)) ],
      )
      | inr off ↦ rw off (
        λ h. (inr (rest.0 h).0, (rest.0 h).1),
        λ (m, act). elim m [
          | inl e ↦
              absurd (clash (is_active_for_var v x) (sym (ap (is_active_for_var v) e) ∙ act) off)
          | inr h ↦ rest.1 (h, act)
        ],
      )
    ]

pub length-active_atoms : (v : ℕ) (atoms : List Atom) → length (active_atoms v atoms) ≤ length atoms
unfolding active_atoms
length-active_atoms v [] = omega arith
length-active_atoms v (x ∷ xs) = elim (Bool-cases (is_active_for_var v x)) [
  | inl on ↦ rw on (omega (arith, length-active_atoms v xs))
  | inr off ↦ rw off (omega (arith, length-active_atoms v xs))
]

module _ (M : Atom → Row → Type 0) (n : ℕ) where
  -- What the scan of the atom for the variable meets.
  abbrev pub Offers : ℕ → Bindings → Atom → ℕ → Type 0
  Offers v b a val =
      Offered (M a) (resolve b a.s) (resolve b a.p) (resolve b a.o) (target_field v a) val

  -- The scans of atoms whose sources serve them.
  pub scans-Views :
      (v : ℕ) (b : Bindings) (act : List Atom)
      → ((a : Atom) → In a act → Serves a.source (M a) n)
      → (kss : List (List ℕ)) × Views (map (scan_for_var v b) act) kss
        × (total kss ≤ length act * n)
        × ((val : ℕ) → Common val kss ↔ ((a : Atom) → In a act → Offers v b a val))
  unfolding scan_for_var
  scans-Views v b [] serves = ([], tt, omega arith, λ val. (λ c a m. absurd m, λ h. tt))
  scans-Views v b (x ∷ xs) serves =
      let here = serves x (inl refl) in
      let (kss, vs, small, same) = scans-Views v b xs (λ a m. serves a (inr m)) in
      let s = resolve b x.s in
      let p = resolve b x.p in
      let o = resolve b x.o in
      let f = target_field v x in
      (
        here.keys s p o f ∷ kss,
        (here.view s p o f, vs),
        omega (arith, here.small s p o f, small, suc-mul (length xs) n),
        λ val. (
          λ (i, c) a m. elim m [
            | inl e ↦ subst (λ z. Offers v b z val) (sym e) ((here.members s p o f val).0 i)
            | inr h ↦ (same val).0 c a h
          ],
          λ h. ((here.members s p o f val).1 (h x (inl refl)), (same val).1 (λ a m. h a (inr m))),
        ),
      )

VarFrom-is_var : (k : ℕ) (x : AtomField) → VarBelow (suc k) x → VarFrom k x → is_var k x ≡ true
VarFrom-is_var k x h f = elim (VarFrom-split k x f) [
  | inl e ↦ e
  | inr later ↦ absurd (VarFrom-not (suc k) x h later)
]

HasVarFrom-active :
    (k : ℕ) (a : Atom) → AllVarBelow (suc k) a → HasVarFrom k a → is_active_for_var k a ≡ true
unfolding is_active_for_var
HasVarFrom-active k a (bs, bp, bo) h = elim h [
  | inl s ↦ rw (VarFrom-is_var k a.s bs s) refl
  | inr (inl p) ↦ let e = VarFrom-is_var k a.p bp p in ground (arith, e)
  | inr (inr o) ↦ let e = VarFrom-is_var k a.o bo o in ground (arith, e)
]

-- An atom that is not yet settled is active now, for the last time, or settled later.
pub now_or_later :
    (k : ℕ) (a : Atom)
    → HasVarFrom k a
    → ((is_active_for_var k a ≡ true) × AllVarBelow (suc k) a) ⊎ HasVarFrom (suc k) a
now_or_later k a h = elim (VarBelow-VarFrom (suc k) a.s) [
  | inr s ↦ inr (inl s)
  | inl bs ↦ elim (VarBelow-VarFrom (suc k) a.p) [
    | inr p ↦ inr (inr (inl p))
    | inl bp ↦ elim (VarBelow-VarFrom (suc k) a.o) [
      | inr o ↦ inr (inr (inr o))
      | inl bo ↦ inl (HasVarFrom-active k a (bs, bp, bo) h, (bs, bp, bo))
    ]
  ]
]

pub active-HasVarFrom : (k : ℕ) (a : Atom) → is_active_for_var k a ≡ true → HasVarFrom k a
unfolding is_active_for_var
active-HasVarFrom k a h = elim (Bool-cases (is_var k a.s)) [
  | inl s ↦ inl (is_var-VarFrom k a.s s)
  | inr not_s ↦ elim (Bool-cases (is_var k a.p)) [
    | inl p ↦ inr (inl (is_var-VarFrom k a.p p))
    | inr not_p ↦ inr (inr (is_var-VarFrom k a.o (rw (not_s, not_p) at h)))
  ]
]

pub HasVarFrom-suc : (k : ℕ) (a : Atom) → HasVarFrom (suc k) a → HasVarFrom k a
HasVarFrom-suc k a h = elim h [
  | inl s ↦ inl (VarFrom-suc k a.s s)
  | inr (inl p) ↦ inr (inl (VarFrom-suc k a.p p))
  | inr (inr o) ↦ inr (inr (VarFrom-suc k a.o o))
]

pub HasVarFrom-not : (k : ℕ) (a : Atom) → AllVarBelow k a → HasVarFrom k a → ⊥
HasVarFrom-not k a (bs, bp, bo) h = elim h [
  | inl s ↦ VarFrom-not k a.s bs s
  | inr (inl p) ↦ VarFrom-not k a.p bp p
  | inr (inr o) ↦ VarFrom-not k a.o bo o
]
