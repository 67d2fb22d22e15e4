-- ===== src/Patterns/Laws.antt =====
-- What an identifier that passes its pattern can hold.
use openlinker_agent_node.Base.{
  ℕ, zero, suc, ◌+◌, String, ◌≡◌, refl, true, false, List, [], ◌∷◌, Option, none, some, ◌||◌, ◌==◌,
  codes, length, All, arith, Option-cases, Bool-cases, some_inj, inl, inr, ap, sym, subst,
}
use openlinker_agent_node.Patterns.{is_hex, hex_run, dash, at_end, uuid_codes, is_uuid, ◌>>=◌}

-- a lower-case hexadecimal digit or a dash
abbrev pub IsIdCode : ℕ → Type 0
IsIdCode c = is_hex c || c == b'-' ≡ true

bind-eq-some :
    {A B : Type 0} (left : Option A) (part : A → Option B) {b : B}
    → (left >>= part) ≡ some b
    → (rest : A) × (left ≡ some rest) × (part rest ≡ some b)
bind-eq-some none part h = cc
bind-eq-some (some rest) part h = (rest, refl, h)

-- `cs` is `n` identifier codes before `rest`
record Consumes (cs rest : List ℕ) (n : ℕ) : Type 0 where
  count : length cs ≡ n + length rest
  codes : All IsIdCode rest → All IsIdCode cs

hex_run-Consumes :
    (n : ℕ) (cs : List ℕ) {rest : List ℕ} → hex_run n cs ≡ some rest → Consumes cs rest n
hex_run-Consumes zero cs h = record {
  count = omega (arith, ap length (some_inj h));
  codes = λ k. subst (All IsIdCode) (sym (some_inj h)) k;
}
hex_run-Consumes (suc n) [] h = cc
hex_run-Consumes (suc n) (c ∷ cs) {rest} h = elim (Bool-cases (is_hex c)) [
  | inl hex ↦
      let r : Consumes cs rest n = hex_run-Consumes n cs (rw hex at h) in
      record { count = omega (arith, r.count); codes = λ k. (rw hex, r.codes k) }
  | inr other ↦ absurd (cc (rw other at h))
]

dash-Consumes : (cs : List ℕ) {rest : List ℕ} → dash cs ≡ some rest → Consumes cs rest 1
dash-Consumes [] h = cc
dash-Consumes (c ∷ cs) {rest} h = elim (Bool-cases (c == b'-')) [
  | inl same ↦
      let e : cs ≡ rest = some_inj (rw same at h) in
      record {
        count = omega (arith, ap length e);
        codes = λ k. (ground arith, subst (All IsIdCode) (sym e) k);
      }
  | inr other ↦ absurd (cc (rw other at h))
]

at_end-Consumes : (cs : List ℕ) {u : Unit {0}} → at_end cs ≡ some u → Consumes cs [] 0
at_end-Consumes [] h = record { count = omega arith; codes = λ k. k }
at_end-Consumes (c ∷ cs) h = cc

Consumes-trans : {a b c : List ℕ} {m n : ℕ} → Consumes a b m → Consumes b c n → Consumes a c (m + n)
Consumes-trans p q = record {
  count = omega (arith, p.count, q.count);
  codes = λ k. p.codes (q.codes k);
}

uuid_codes-Consumes : (cs : List ℕ) {u : Unit {0}} → uuid_codes cs ≡ some u → Consumes cs [] 36
unfolding uuid_codes
uuid_codes-Consumes cs h =
    let (a, pa, ha) = bind-eq-some (hex_run 8 cs) _ h in
    let (b, pb, hb) = bind-eq-some (dash a) _ ha in
    let (c, pc, hc) = bind-eq-some (hex_run 4 b) _ hb in
    let (d, pd, hd) = bind-eq-some (dash c) _ hc in
    let (e, pe, he) = bind-eq-some (hex_run 4 d) _ hd in
    let (f, pf, hf) = bind-eq-some (dash e) _ he in
    let (g, pg, hg) = bind-eq-some (hex_run 4 f) _ hf in
    let (i, pi, hi) = bind-eq-some (dash g) _ hg in
    let (j, pj, hj) = bind-eq-some (hex_run 12 i) _ hi in
    Consumes-trans (hex_run-Consumes 8 cs pa) (
      Consumes-trans (dash-Consumes a pb) (
        Consumes-trans (hex_run-Consumes 4 b pc) (
          Consumes-trans (dash-Consumes c pd) (
            Consumes-trans (hex_run-Consumes 4 d pe) (
              Consumes-trans (dash-Consumes e pf) (
                Consumes-trans (hex_run-Consumes 4 f pg) (
                  Consumes-trans (dash-Consumes g pi)
                    (Consumes-trans (hex_run-Consumes 12 i pj) (at_end-Consumes j hj)))))))))

-- An identifier that passes the UUID pattern has exactly 36 code points, each of them a
-- lower-case hexadecimal digit or a dash: no slash, dot, space or control character.
pub is_uuid_shape :
    (s : String) → is_uuid s ≡ true → (length (codes s) ≡ 36) × All IsIdCode (codes s)
unfolding is_uuid
is_uuid_shape s h = elim (Option-cases (uuid_codes (codes s))) [
  | inl e ↦ absurd (cc (rw e at h))
  | inr (u, e) ↦
      let c : Consumes (codes s) [] 36 = uuid_codes-Consumes (codes s) e in (c.count, c.codes tt)
]

pub not-is_uuid-empty : is_uuid "" ≡ false
unfolding is_uuid uuid_codes
not-is_uuid-empty = refl
