-- ===== src/Storage/Wal/RoundTrip.antt =====
-- wal.rs: what the encoders of `Codec` write, the decoders read back.
use mathlib.Core.Logic.{if_pos, if_neg}
use oxigraph_nova.Prelude.{
  ℕ, zero, suc, ◌≤◌, ◌<◌, ◌≡◌, refl, true, Option, none, some, [], ◌∷◌, ◌++◌, inl, inr, append-nil,
  append_assoc, arith, length, length-append, take-append, drop-append, Option-cases,
}
use oxigraph_nova.Prelude.Result.{ok}
use oxigraph_nova.Prelude.Bytes.{Bytes, u32_mod, is_utf8}
use oxigraph_nova.Rdf.{
  BaseDirection, ltr, rtl, Oxrdf, OxrdfLaws, Subject, named, blank, Term, iri, bnode, literal,
  triple,
}
use oxigraph_nova.Storage.Wal.Codec.{
  write_string, read_string, read_tag, write_literal, write_subject, write_object_term,
  read_subject_from_tag, read_nested, read_object_term,
}

-- A `str` whose length fits the prefix.
abbrev pub Fits : Bytes → Type 0
Fits s = length s < u32_mod

pub read_string-write_string :
    (s rest : Bytes)
    → is_utf8 s ≡ true
    → Fits s
    → read_string (write_string s ++ rest) ≡ ok (s, rest)
unfolding read_string write_string
read_string-write_string s rest u h =
    ground (arith, take-append s rest, drop-append s rest, length-append s rest)

module _ (x : Oxrdf) (laws : OxrdfLaws x) where
  open x use {
    NamedNode, BlankNode, Literal, node_str, blank_str, value, language, direction, datatype,
    xsd_string, node_eq,
  }

  abbrev pub SubjectFits : Subject x → Type 0
  SubjectFits (named n) = Fits (node_str n)
  SubjectFits (blank b) = Fits (blank_str b)

  pub record LiteralFits (l : Literal) : Type 0 where
    pub text : Fits (value l)
    pub lang : (t : Bytes) → language l ≡ some t → Fits t
    pub kind : Fits (node_str (datatype l))

  abbrev pub TermFits : Term x → Type 0
  TermFits (iri n) = Fits (node_str n)
  TermFits (bnode b) = Fits (blank_str b)
  TermFits (literal l) = LiteralFits l
  TermFits (triple s p o) = SubjectFits s × Fits (node_str p) × TermFits o

  pub read_subject-write_subject :
      (s : Subject x) (rest : Bytes)
      → SubjectFits s
      → read_subject_from_tag x (write_subject x s ++ rest) ≡ ok (s, rest)
  unfolding read_subject_from_tag write_subject read_tag
  read_subject-write_subject (named n) rest h =
      simp (read_string-write_string (node_str n) rest (laws.node_utf8 n) h, laws.node_text n)
  read_subject-write_subject (blank b) rest h =
      simp (read_string-write_string (blank_str b) rest (laws.blank_utf8 b) h, laws.blank_text b)

  module _ (l : Literal) (fits : LiteralFits l) (fuel : ℕ) (rest : Bytes) where
    open fits use {text, lang, kind}

    abbrev ReadsBack : Option BaseDirection → Type 0
    ReadsBack od = read_nested x (suc fuel) (write_literal x l od ++ rest) ≡ ok (literal l, rest)

    -- the text, whatever follows it
    text_lem : (more : Bytes) → read_string (write_string (value l) ++ more) ≡ ok (value l, more)
    text_lem more = read_string-write_string (value l) more (laws.value_utf8 l) text

    lang_lem :
        (t more : Bytes) → language l ≡ some t → read_string (write_string t ++ more) ≡ ok (t, more)
    lang_lem t more e = read_string-write_string t more (laws.language_utf8 l t e) (lang t e)

    kind_lem :
        (more : Bytes)
        → read_string (write_string (node_str (datatype l)) ++ more)
          ≡ ok (node_str (datatype l), more)
    kind_lem more =
        read_string-write_string (node_str (datatype l)) more (laws.node_utf8 (datatype l)) kind

    tagged_back : (t : Bytes) → direction l ≡ none → language l ≡ some t → ReadsBack none
    unfolding write_literal read_nested read_tag
    tagged_back t d e = simp (e, append_assoc, text_lem, lang_lem t rest e, laws.tagged_lem l t d e)

    directed_back :
        (t : Bytes) (d : BaseDirection)
        → direction l ≡ some d
        → language l ≡ some t
        → ReadsBack (some d)
    unfolding write_literal read_nested read_tag
    directed_back t ltr d e =
        simp (e, append_assoc, text_lem, lang_lem t (0 ∷ rest) e, laws.directional_lem l t ltr d e)
    directed_back t rtl d e =
        simp (e, append_assoc, text_lem, lang_lem t (1 ∷ rest) e, laws.directional_lem l t rtl d e)

    plain_back : language l ≡ none → ReadsBack none
    unfolding write_literal read_nested read_tag
    plain_back e = elim (node_eq (datatype l) xsd_string) [
      | yes same ↦ simp (
        e,
        if_pos {C = Bytes} (node_eq (datatype l) xsd_string) same,
        text_lem,
        laws.simple_lem l e same,
      )
      | no differ ↦ simp (
        e,
        if_neg {C = Bytes} (node_eq (datatype l) xsd_string) differ,
        append_assoc,
        text_lem,
        kind_lem,
        laws.node_text,
        laws.typed_lem l e,
      )
    ]

    literal_back : ReadsBack (direction l)
    literal_back = elim (Option-cases (direction l)) [
      | inl undirected ↦ rw undirected (elim (Option-cases (language l)) [
        | inl untagged ↦ plain_back untagged
        | inr (t, tagged) ↦ tagged_back t undirected tagged
      ])
      | inr (d, directed) ↦ rw directed (elim (Option-cases (language l)) [
        | inl untagged ↦ absurd (laws.directed_tagged l d directed untagged)
        | inr (t, tagged) ↦ directed_back t d directed tagged
      ])
    ]

  -- how deep a term nests quoted triples
  abbrev pub depth : Term x → ℕ
  depth (triple s p o) = suc (depth o)
  depth _ = 0

  -- the bytes of a term, and what reading them gives
  abbrev pub Written : Term x → Type 0
  Written t =
      (bs : Bytes) × (write_object_term x t ≡ some bs)
      × (depth t < length bs)
      × ((fuel : ℕ) (rest : Bytes)
          → depth t ≤ fuel
          → read_nested x (suc fuel) (bs ++ rest) ≡ ok (t, rest))

  module _ (s : Subject x) (p : NamedNode) (o : Term x) (fits : TermFits (triple s p o)) where
    abbrev triple_bytes : Bytes → Bytes
    triple_bytes back = (6 ∷ write_subject x s ++ write_string (node_str p)) ++ back

    triple_back :
        (back : Bytes)
        → ((fuel : ℕ) (rest : Bytes)
            → depth o ≤ fuel
            → read_nested x (suc fuel) (back ++ rest) ≡ ok (o, rest))
        → (fuel : ℕ) (rest : Bytes) → suc (depth o) ≤ fuel
        → read_nested x (suc fuel) (triple_bytes back ++ rest) ≡ ok (triple s p o, rest)
    unfolding read_nested read_tag
    triple_back back reads zero rest h = absurd (omega arith)
    triple_back back reads (suc fuel) rest h = simp (
      append_assoc,
      read_subject-write_subject s (write_string (node_str p) ++ (back ++ rest)) fits.0,
      read_string-write_string (node_str p) (back ++ rest) (laws.node_utf8 p) fits.1,
      laws.node_text p,
      reads fuel rest (omega arith),
    )

    triple-Written : Written o → Written (triple s p o)
    unfolding write_object_term
    triple-Written (back, e, deep, reads) = (
      triple_bytes back,
      rw e,
      omega (arith, length-append (write_subject x s ++ write_string (node_str p)) back),
      triple_back back reads,
    )

  literal_pos : (l : Literal) (od : Option BaseDirection) → 0 < length (write_literal x l od)
  unfolding write_literal
  literal_pos l od = ground arith

  pub written : (t : Term x) → TermFits t → Written t
  unfolding write_object_term read_nested read_tag
  written (iri n) h = (
    0 ∷ write_string (node_str n),
    refl,
    omega arith,
    λ fuel rest _.
        simp (read_string-write_string (node_str n) rest (laws.node_utf8 n) h, laws.node_text n),
  )
  written (bnode b) h = (
    1 ∷ write_string (blank_str b),
    refl,
    omega arith,
    λ fuel rest _.
        simp (read_string-write_string (blank_str b) rest (laws.blank_utf8 b) h, laws.blank_text b),
  )
  written (literal l) h = (
    write_literal x l (direction l),
    refl,
    literal_pos l (direction l),
    λ fuel rest _. literal_back l h fuel rest,
  )
  written (triple s p o) h = triple-Written s p o h (written o h.2)

  pub read_object_term-written :
      (t : Term x) (bs : Bytes)
      → depth t < length bs
      → ((fuel : ℕ) (rest : Bytes)
          → depth t ≤ fuel
          → read_nested x (suc fuel) (bs ++ rest) ≡ ok (t, rest))
      → read_object_term x bs ≡ ok (t, [])
  unfolding read_object_term
  read_object_term-written t bs deep reads = rw append-nil at (reads (length bs) [] (omega arith))
