-- ===== src/ConnectionManager/MimeTypes/FilterText.antt =====
-- What the text of a filter means, as its parts are written down, and which types it leaves.
use mathlib.Core.Path.{subst}
use gmrender_resurrect.Prelude.{
  ℕ, ◌≡◌, ◌≢◌, refl, sym, ap, ◌∙◌, arith, Bool, true, false, not, ◌&&◌, ◌||◌, some, List, [], ◌∷◌,
  ◌++◌, append_assoc, append-nil,
}
use gmrender_resurrect.Prelude.Text.{Bytes, str_eq, starts_with}
use gmrender_resurrect.ConnectionManager.MimeTypes.{
  Slist, MimeTypeFilters, same_root, tokens, sort_token, sort_tokens, parse_filter, filtered,
}
use gmrender_resurrect.ConnectionManager.MimeTypes.Filtering.{supports, IsDistinct, IsSlist}
use gmrender_resurrect.ConnectionManager.MimeTypes.Roots.{has_root, allowed, filtered_parts}

-- A part of a filter: a root to allow, a type to add, or one to remove.
pub data Part : Type 0 where
  allow add drop : Bytes → Part

-- How a part is written.
abbrev pub written : Part → Bytes
written (allow root) = root
written (add mime_type) = b'+' ∷ mime_type
written (drop mime_type) = b'-' ∷ mime_type

abbrev pub all_written : List Part → List Bytes
all_written [] = []
all_written (p ∷ parts) = written p ∷ all_written parts

-- The parts with commas between them.
abbrev pub filter_text : List Part → Bytes
filter_text [] = []
filter_text (p ∷ []) = written p
filter_text (p ∷ q ∷ parts) = written p ++ (b',' ∷ filter_text (q ∷ parts))

-- No comma in a text.
abbrev pub NoComma : Bytes → Type 0
NoComma [] = Unit {0}
NoComma (c ∷ s) = (c ≢ b',') × NoComma s

-- A root is not empty and begins with neither sign.
abbrev pub IsRoot : Bytes → Type 0
IsRoot [] = ⊥
IsRoot (c ∷ s) = (c ≢ b'+') × (c ≢ b'-')

-- The parts that can be written.
abbrev pub IsWritable : Part → Type 0
IsWritable (allow root) = IsRoot root × NoComma root
IsWritable (add mime_type) = NoComma mime_type
IsWritable (drop mime_type) = NoComma mime_type

abbrev pub AreWritable : List Part → Type 0
AreWritable [] = Unit {0}
AreWritable (p ∷ parts) = IsWritable p × AreWritable parts

-- A type fits a root if one of the two begins the other.
abbrev pub fits : Bytes → Bytes → Bool
fits y root = starts_with root y || starts_with y root

-- Whether a filter names a root at all, whether it has one that fits, and what it adds and removes.
unfoldable pub names_root : List Part → Bool
names_root [] = false
names_root (allow root ∷ parts) = true
names_root (_ ∷ parts) = names_root parts

unfoldable pub allows : Bytes → List Part → Bool
allows y [] = false
allows y (allow root ∷ parts) = fits y root || allows y parts
allows y (_ ∷ parts) = allows y parts

unfoldable pub adds : Bytes → List Part → Bool
adds y [] = false
adds y (add t ∷ parts) = str_eq y t || adds y parts
adds y (_ ∷ parts) = adds y parts

unfoldable pub drops : Bytes → List Part → Bool
drops y [] = false
drops y (drop t ∷ parts) = str_eq y t || drops y parts
drops y (_ ∷ parts) = drops y parts

same_root-fits : (y root : Bytes) → same_root y root ≡ fits y root
unfolding same_root starts_with
same_root-fits [] [] = refl
same_root-fits [] (x ∷ root) = ground arith
same_root-fits (c ∷ y) [] = ground arith
same_root-fits (c ∷ y) (x ∷ root) = ground (arith, same_root-fits y root)

-- A piece without a comma joins the token that is begun.
tokens-piece :
    (piece rest token : Bytes)
    → NoComma piece
    → tokens (piece ++ rest) token ≡ tokens rest (token ++ piece)
unfolding tokens
tokens-piece [] rest token n = ap (tokens rest) (sym (append-nil token))
tokens-piece (c ∷ piece) rest token (ne, n) =
    ground
      (arith, ne, tokens-piece piece rest (token ++ (c ∷ [])) n, append_assoc token (c ∷ []) piece)

-- A part is not empty and has no comma.
data IsToken : Bytes → Type 0 where
  token_of : (c : ℕ) (s : Bytes) → NoComma (c ∷ s) → IsToken (c ∷ s)

written-IsToken : (p : Part) → IsWritable p → IsToken (written p)
written-IsToken (allow []) (r, n) = absurd r
written-IsToken (allow (c ∷ s)) (r, n) = token_of c s n
written-IsToken (add s) n = token_of b'+' s (omega arith, n)
written-IsToken (drop s) n = token_of b'-' s (omega arith, n)

at_end : (c : ℕ) (s : Bytes) → tokens [] (c ∷ s) ≡ (c ∷ s) ∷ []
unfolding tokens
at_end c s = refl

at_comma : (c : ℕ) (s rest : Bytes) → tokens (b',' ∷ rest) (c ∷ s) ≡ (c ∷ s) ∷ tokens rest []
unfolding tokens
at_comma c s rest = refl

last_token : (t : Bytes) → IsToken t → tokens t [] ≡ t ∷ []
last_token _ (token_of c s n) =
    ap (λ u. tokens u []) (sym (append-nil (c ∷ s))) ∙ tokens-piece (c ∷ s) [] [] n ∙ at_end c s

first_token : (t rest : Bytes) → IsToken t → tokens (t ++ (b',' ∷ rest)) [] ≡ t ∷ tokens rest []
first_token _ rest (token_of c s n) = tokens-piece (c ∷ s) (b',' ∷ rest) [] n ∙ at_comma c s rest

tokens-filter_text :
    (parts : List Part) → AreWritable parts → tokens (filter_text parts) [] ≡ all_written parts
unfolding tokens
tokens-filter_text [] w = refl
tokens-filter_text (p ∷ []) (w, ws) = last_token (written p) (written-IsToken p w)
tokens-filter_text (p ∷ q ∷ parts) (w, ws) =
    first_token (written p) (filter_text (q ∷ parts)) (written-IsToken p w)
    ∙ ap (λ ts. written p ∷ ts) (tokens-filter_text (q ∷ parts) ws)

abbrev names_one : List Bytes → Bool
names_one [] = false
names_one (r ∷ roots) = true

-- What the three lists of a filter hold, with those of `f` before it.
record Sorted (parts : List Part) (f g : MimeTypeFilters) : Type 0 where
  named_eq : names_one g.allowed_roots ≡ (names_one f.allowed_roots || names_root parts)
  roots_eq :
      (y : Bytes) → has_root y g.allowed_roots ≡ (has_root y f.allowed_roots || allows y parts)
  added_eq : (y : Bytes) → supports y g.added_types ≡ (supports y f.added_types || adds y parts)
  removed_eq :
      (y : Bytes) → supports y g.removed_types ≡ (supports y f.removed_types || drops y parts)

sort_token-root :
    (c : ℕ) (r : Bytes) (f : MimeTypeFilters)
    → IsRoot (c ∷ r)
    → sort_token (c ∷ r) f ≡ record f { allowed_roots = (c ∷ r) ∷ f.allowed_roots }
unfolding sort_token
sort_token-root c r f (p, m) = ground (arith, p, m)

-- A part before others.
root_first :
    (root : Bytes) (parts : List Part) (f g : MimeTypeFilters)
    → Sorted parts (record f { allowed_roots = root ∷ f.allowed_roots }) g
    → Sorted (allow root ∷ parts) f g
unfolding has_root names_root allows adds drops
root_first root parts f g h = record {
  named_eq = ground (arith, h.named_eq);
  roots_eq = λ y. ground (arith, h.roots_eq y, same_root-fits y root);
  added_eq = h.added_eq;
  removed_eq = h.removed_eq;
}

added_first :
    (t : Bytes) (parts : List Part) (f g : MimeTypeFilters)
    → Sorted parts (record f { added_types = t ∷ f.added_types }) g
    → Sorted (add t ∷ parts) f g
unfolding supports names_root allows adds drops
added_first t parts f g h = record {
  named_eq = h.named_eq;
  roots_eq = h.roots_eq;
  added_eq = λ y. ground (arith, h.added_eq y);
  removed_eq = h.removed_eq;
}

removed_first :
    (t : Bytes) (parts : List Part) (f g : MimeTypeFilters)
    → Sorted parts (record f { removed_types = t ∷ f.removed_types }) g
    → Sorted (drop t ∷ parts) f g
unfolding supports names_root allows adds drops
removed_first t parts f g h = record {
  named_eq = h.named_eq;
  roots_eq = h.roots_eq;
  added_eq = h.added_eq;
  removed_eq = λ y. ground (arith, h.removed_eq y);
}

sort_tokens-Sorted :
    (parts : List Part) (f : MimeTypeFilters)
    → AreWritable parts
    → Sorted parts f (sort_tokens (all_written parts) f)
unfolding sort_tokens sort_token names_root allows adds drops
sort_tokens-Sorted [] f w = record {
  named_eq = ground arith;
  roots_eq = λ y. ground arith;
  added_eq = λ y. ground arith;
  removed_eq = λ y. ground arith;
}
sort_tokens-Sorted (allow [] ∷ parts) f (w, ws) = absurd w.0
sort_tokens-Sorted (allow (c ∷ r) ∷ parts) f (w, ws) =
    let g = record f { allowed_roots = (c ∷ r) ∷ f.allowed_roots } in
    subst (λ f'. Sorted (allow (c ∷ r) ∷ parts) f (sort_tokens (all_written parts) f'))
      (sym (sort_token-root c r f w.0))
      (root_first (c ∷ r) parts f _ (sort_tokens-Sorted parts g ws))
sort_tokens-Sorted (add t ∷ parts) f (w, ws) =
    added_first t parts f _
      (sort_tokens-Sorted parts (record f { added_types = t ∷ f.added_types }) ws)
sort_tokens-Sorted (drop t ∷ parts) f (w, ws) =
    removed_first t parts f _
      (sort_tokens-Sorted parts (record f { removed_types = t ∷ f.removed_types }) ws)

allowed-named :
    (y : Bytes) (roots : List Bytes) → allowed y roots ≡ (not (names_one roots) || has_root y roots)
unfolding allowed has_root
allowed-named y [] = refl
allowed-named y (r ∷ roots) = refl

abbrev no_filter : MimeTypeFilters
no_filter = record { allowed_roots = []; added_types = []; removed_types = [] }

parse_filter-Sorted :
    (parts : List Part)
    → AreWritable parts
    → Sorted parts no_filter (parse_filter (some (filter_text parts)))
unfolding parse_filter
parse_filter-Sorted parts w =
    subst (λ ts. Sorted parts no_filter (sort_tokens ts no_filter))
      (sym (tokens-filter_text parts w)) (sort_tokens-Sorted parts no_filter w)

left_types :
    (parts : List Part) (f : MimeTypeFilters) (there : Bool) (y : Bytes)
    → Sorted parts no_filter f
    → (((there && allowed y f.allowed_roots) || supports y f.added_types)
        && not (supports y f.removed_types))
      ≡ (((there && (not (names_root parts) || allows y parts)) || adds y parts)
          && not (drops y parts))
unfolding has_root supports
left_types parts f there y h =
    ground (
      arith,
      h.named_eq,
      h.roots_eq y,
      h.added_eq y,
      h.removed_eq y,
      allowed-named y f.allowed_roots,
    )

module _ ⦃g : Slist⦄ (slist : IsSlist g) where
  -- If the functions of GLib do what its manual says, and a filter is the text of some parts, each a
  -- root, a `+` with a type or a `-` with a type, with commas between them, then the filter of
  -- `connmgr_init` on a list without duplicates leaves one without duplicates. In it are just the
  -- types that no part removes and that a part adds or that were there and fit a root, or any root if
  -- the filter names none. A type fits a root if it begins with the root, or if it is itself the
  -- beginning of the root.
  pub filtered-supports :
      (parts : List Part) (types : List Bytes)
      → AreWritable parts
      → IsDistinct types
      → IsDistinct (filtered (some (filter_text parts)) types)
        × ((y : Bytes)
            → supports y (filtered (some (filter_text parts)) types) ≡ (
                ((supports y types && (not (names_root parts) || allows y parts)) || adds y parts)
                && not (drops y parts)))
  filtered-supports parts types w d =
      let f = parse_filter (some (filter_text parts)) in
      let sorted = parse_filter-Sorted parts w in
      let (c, e) = filtered_parts slist (some (filter_text parts)) types d in
      (c, λ y. e y ∙ left_types parts f (supports y types) y sorted)
