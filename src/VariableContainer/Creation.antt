-- ===== src/VariableContainer/Creation.antt =====
-- src/variable-container.c: what `VariableContainer_new` makes of the table of the meta data.
use mathlib.Core.Path.{subst}
use gmrender_resurrect.Prelude.{
  ℕ, zero, suc, ◌+◌, ◌<◌, ◌≡◌, refl, ap, ◌∙◌, arith, Bool, true, false, ◌&&◌, ltb, Option, none,
  some, List, [], ◌∷◌, ◌==◌, length, get_elem?, take,
}
use gmrender_resurrect.Prelude.Text.{Bytes}
use gmrender_resurrect.VariableContainer.{VarMeta, Container, create_sorted_meta, fill, new}

-- The variable at place `j` of the table, which is number `i`: it is there, with its name and its
-- default value.
pub record IsInitial (metas : List VarMeta) (values : List Bytes) (i j : ℕ) : Type 0 where
  pub meta : VarMeta
  pub name : Bytes
  pub value : Bytes
  pub found : get_elem? metas j ≡ some meta
  pub numbered : meta.id ≡ i + j
  pub named : meta.name ≡ some name
  pub defaulted : meta.default_value ≡ some value
  pub stored : get_elem? values j ≡ some value

record Peeled (i : ℕ) (m : VarMeta) (ms : List VarMeta) (values : List Bytes) : Type 0 where
  name : Bytes
  value : Bytes
  rest : List Bytes
  numbered : m.id ≡ i
  named : m.name ≡ some name
  defaulted : m.default_value ≡ some value
  filled : fill (i + 1) ms ≡ some rest
  values_eq : values ≡ value ∷ rest

peel :
    (i : ℕ) (m : VarMeta) (ms : List VarMeta) (values : List Bytes)
    → fill i (m ∷ ms) ≡ some values
    → Peeled i m ms values
unfolding fill
peel i m ms values e = go m.name refl m.default_value refl (m.id == i) refl (fill (i + 1) ms) refl
  where
    go :
        (n : Option Bytes)
        → m.name ≡ n
        → (d : Option Bytes) → m.default_value ≡ d
        → (b : Bool) → (m.id == i) ≡ b
        → (r : Option (List Bytes)) → fill (i + 1) ms ≡ r
        → Peeled i m ms values
    go none en d ed b eb r er = absurd (ground (arith, e, en))
    go (some n) en d ed false eb r er = absurd (ground (arith, e, en, eb))
    go (some n) en none ed true eb r er = absurd (ground (arith, e, en, eb, ed))
    go (some n) en (some d) ed true eb none er = absurd (ground (arith, e, en, eb, ed, er))
    go (some n) en (some d) ed true eb (some r) er = record {
      name = n;
      value = d;
      rest = r;
      numbered = ground (arith, eb);
      named = en;
      defaulted = ed;
      filled = er;
      values_eq = ground (arith, e, en, eb, ed, er);
    }

fill-length :
    (i : ℕ) (ms : List VarMeta) (values : List Bytes)
    → fill i ms ≡ some values
    → length values ≡ length ms
unfolding fill
fill-length i [] values e = ground arith
fill-length i (m ∷ ms) values e =
    let p = peel i m ms values e in
    ap length p.values_eq ∙ ap suc (fill-length (i + 1) ms p.rest p.filled)

fill-IsInitial :
    (i : ℕ) (ms : List VarMeta) (values : List Bytes)
    → fill i ms ≡ some values
    → (j : ℕ) → j < length ms
    → IsInitial ms values i j
fill-IsInitial i [] values e j h = absurd (ground (arith, h))
fill-IsInitial i (m ∷ ms) values e zero h =
    let p = peel i m ms values e in
    record {
      meta = m;
      name = p.name;
      value = p.value;
      found = refl;
      numbered = ground (arith, p.numbered);
      named = p.named;
      defaulted = p.defaulted;
      stored = ap (λ vs. get_elem? vs 0) p.values_eq;
    }
fill-IsInitial i (m ∷ ms) values e (suc j) h =
    let p = peel i m ms values e in
    let q = fill-IsInitial (i + 1) ms p.rest p.filled j (ground (arith, h)) in
    record {
      meta = q.meta;
      name = q.name;
      value = q.value;
      found = q.found;
      numbered = ground (arith, q.numbered);
      named = q.named;
      defaulted = q.defaulted;
      stored = ap (λ vs. get_elem? vs (suc j)) p.values_eq ∙ q.stored;
    }

pub record IsNew (n : ℕ) (metas : List VarMeta) (c : Container) : Type 0 where
  pub num_eq : c.variable_num ≡ n
  pub vars_eq : c.vars ≡ create_sorted_meta (take n metas)
  pub vars_length : length c.vars ≡ n
  pub values_length : length c.values ≡ n
  pub callbacks_eq : c.callbacks ≡ []
  pub initial : (i : ℕ) → i < n → IsInitial c.vars c.values 0 i

-- A container that `VariableContainer_new` makes of `n` entries has the sorted table of them, as
-- many values, and no callback, and each place in it holds the variable with that number, which has
-- a name, and the value is its default.
pub new-IsNew :
    (n : ℕ) (metas : List VarMeta) (c : Container) → new n metas ≡ some c → IsNew n metas c
unfolding new
new-IsNew n metas c e =
    go (ltb 0 n && (length (create_sorted_meta (take n metas)) == n)) refl
      (fill 0 (create_sorted_meta (take n metas))) refl
  where
    go :
        (b : Bool)
        → (ltb 0 n && (length (create_sorted_meta (take n metas)) == n)) ≡ b
        → (r : Option (List Bytes)) → fill 0 (create_sorted_meta (take n metas)) ≡ r
        → IsNew n metas c
    go false eb r er = absurd (ground (arith, e, eb))
    go true eb none er = absurd (ground (arith, e, eb, er))
    go true eb (some values) er =
        let made : record {
          variable_num = n;
          vars = create_sorted_meta (take n metas);
          values = values;
          callbacks = [];
        }
            ≡ c =
          ground (arith, e, eb, er) in
        let size : length (create_sorted_meta (take n metas)) ≡ n = ground (arith, eb) in
        subst (IsNew n metas) made (record {
          num_eq = refl;
          vars_eq = refl;
          vars_length = size;
          values_length = fill-length 0 (create_sorted_meta (take n metas)) values er ∙ size;
          callbacks_eq = refl;
          initial = λ i h.
              fill-IsInitial 0 (create_sorted_meta (take n metas)) values er i
                (ground (arith, size, h));
        })
