-- ===== src/Dictionary/Keys.antt =====
-- dict.rs: `TermId`, `GraphId`, and quads packed into one key of 128 bits.
use oxigraph_nova.Prelude.{
  ℕ, ◌+◌, ◌*◌, ◌/◌, ◌%◌, ◌≤◌, ◌<◌, ◌≡◌, ◌↔◌, ◌⊎◌, refl, ltb, if◌then◌else◌, arith,
}
use oxigraph_nova.Prelude.Result.{Result, ok, err, id_space_exhausted}

-- 2 ^ 40 - 1
abbrev pub max_term_id : ℕ
max_term_id = 1099511627775

pub record TermId : Type 0 where
  pub raw : ℕ

pub record GraphId : Type 0 where
  pub raw : ℕ

abbrev pub term_id : ℕ → TermId
term_id n = record { raw = n }

abbrev pub graph_id : ℕ → GraphId
graph_id n = record { raw = n }

-- `TermId::new`
unfoldable pub new_term_id : ℕ → Result TermId
new_term_id id = if ltb max_term_id id then err id_space_exhausted else ok (term_id id)

pub record QuadKey : Type 0 where
  pub g : GraphId
  pub s : TermId
  pub p : TermId
  pub o : TermId

-- The shifts by 120, 80 and 40. The ids have 8 and 40 bits, so no two of the shifted ids have a bit
-- in common, and `|` is their sum.
unfoldable pub pack_quad : QuadKey → ℕ
pack_quad q =
    q.g.raw * 1329227995784915872903807060280344576
    + q.s.raw * 1208925819614629174706176
    + q.p.raw * 1099511627776
    + q.o.raw

unfoldable pub unpack_quad : ℕ → QuadKey
unpack_quad key = record {
  g = graph_id (key / 1329227995784915872903807060280344576 % 256);
  s = term_id (key / 1208925819614629174706176 % 1099511627776);
  p = term_id (key / 1099511627776 % 1099511627776);
  o = term_id (key % 1099511627776);
}

-- The ids have 8 and 40 bits.
pub record IsKey (q : QuadKey) : Type 0 where
  pub graph : q.g.raw < 256
  pub subject : q.s.raw ≤ max_term_id
  pub predicate : q.p.raw ≤ max_term_id
  pub object : q.o.raw ≤ max_term_id

-- Graph-major, and lexicographic behind it.
abbrev pub Before : QuadKey → QuadKey → Type 0
Before a b =
    (a.g.raw < b.g.raw)
    ⊎ ((a.g.raw ≡ b.g.raw)
        × ((a.s.raw < b.s.raw)
            ⊎ ((a.s.raw ≡ b.s.raw)
                × ((a.p.raw < b.p.raw) ⊎ ((a.p.raw ≡ b.p.raw) × (a.o.raw < b.o.raw))))))

g_part :
    (q : QuadKey) → IsKey q → pack_quad q / 1329227995784915872903807060280344576 % 256 ≡ q.g.raw
unfolding pack_quad
g_part q h = omega (arith, h.graph, h.subject, h.predicate, h.object)

s_part : (q : QuadKey) → IsKey q → pack_quad q / 1208925819614629174706176 % 1099511627776 ≡ q.s.raw
unfolding pack_quad
s_part q h = omega (arith, h.graph, h.subject, h.predicate, h.object)

p_part : (q : QuadKey) → IsKey q → pack_quad q / 1099511627776 % 1099511627776 ≡ q.p.raw
unfolding pack_quad
p_part q h = omega (arith, h.graph, h.subject, h.predicate, h.object)

o_part : (q : QuadKey) → IsKey q → pack_quad q % 1099511627776 ≡ q.o.raw
unfolding pack_quad
o_part q h = omega (arith, h.graph, h.subject, h.predicate, h.object)

pack_lt : (q : QuadKey) → IsKey q → pack_quad q < 340282366920938463463374607431768211456
unfolding pack_quad
pack_lt q h = omega (arith, h.graph, h.subject, h.predicate, h.object)

-- A quad of ids of 8 and 40 bits packs into 128 bits, and unpacks to itself.
pub unpack_quad-pack_quad :
    (q : QuadKey)
    → IsKey q
    → (unpack_quad (pack_quad q) ≡ q) × (pack_quad q < 340282366920938463463374607431768211456)
unfolding unpack_quad
unpack_quad-pack_quad q h = (rw (g_part q h, s_part q h, p_part q h, o_part q h) refl, pack_lt q h)

-- Two quads of ids of 8 and 40 bits pack into keys in the order of their ids, the graph's first, then
-- the subject's, the predicate's and the object's.
pub Before-pack_quad :
    (a b : QuadKey) → IsKey a → IsKey b → (pack_quad a < pack_quad b) ↔ Before a b
unfolding pack_quad
Before-pack_quad a b h k =
    ground
      (arith, h.graph, h.subject, h.predicate, h.object, k.graph, k.subject, k.predicate, k.object)
