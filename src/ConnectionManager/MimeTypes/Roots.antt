-- ===== src/ConnectionManager/MimeTypes/Roots.antt =====
-- The filter by the roots, and the whole filter of `connmgr_init`.
use mathlib.Core.Path.{subst}
use gmrender_resurrect.Prelude.{
  ◌≡◌, refl, sym, ap, ◌∙◌, arith, Bool, true, false, not, ◌&&◌, ◌||◌, Option, none, some,
  if◌then◌else◌, List, [], ◌∷◌, ◌++◌, append_assoc,
}
use gmrender_resurrect.Prelude.Text.{Bytes, str_eq, str_eq_refl, str_eq-eq}
use gmrender_resurrect.ConnectionManager.MimeTypes.{
  Link, Slist, same_root, filter_from, filter_roots, parse_filter, filtered, add_all,
}
use gmrender_resurrect.ConnectionManager.MimeTypes.Filtering.{
  supports, IsDistinct, IsSlist, add_all-supports, remove_all-supports,
}

-- Whether some root fits.
unfoldable pub has_root : Bytes → List Bytes → Bool
has_root y [] = false
has_root y (r ∷ roots) = same_root y r || has_root y roots

-- The types that have a root.
unfoldable pub keep : List Bytes → List Bytes → List Bytes
keep roots [] = []
keep roots (e ∷ rest) = let later = keep roots rest in if has_root e roots then e ∷ later else later

-- No roots allow every type.
unfoldable pub allowed : Bytes → List Bytes → Bool
unfolding has_root
allowed y [] = true
allowed y (r ∷ roots) = has_root y (r ∷ roots)

has_root-middle :
    (y r : Bytes) (a b : List Bytes) → same_root y r ≡ true → has_root y (a ++ (r ∷ b)) ≡ true
unfolding has_root
has_root-middle y r [] b h = ground (arith, h)
has_root-middle y r (x ∷ a) b h = ground (arith, has_root-middle y r a b h)

has_root_none :
    (y : Bytes) (roots : List Bytes)
    → ((a : Bytes) → supports a roots ≡ true → same_root y a ≡ false)
    → has_root y roots ≡ false
unfolding has_root supports
has_root_none y [] h = refl
has_root_none y (r ∷ roots) h = ground (
  arith,
  h r (ground (arith, str_eq_refl r)),
  has_root_none y roots (λ a m. h a (ground (arith, m))),
)

keep-supports :
    (roots xs : List Bytes) (y : Bytes)
    → supports y (keep roots xs) ≡ (supports y xs && has_root y roots)
unfolding keep supports
keep-supports roots [] y = refl
keep-supports roots (e ∷ xs) y =
    by_tests (has_root e roots) refl (str_eq y e) refl (keep-supports roots xs y)
  where
    by_tests :
        (b : Bool)
        → has_root e roots ≡ b
        → (c : Bool) → str_eq y e ≡ c
        → supports y (keep roots xs) ≡ (supports y xs && has_root y roots)
        → supports y (if b then e ∷ keep roots xs else keep roots xs)
          ≡ ((c || supports y xs) && has_root y roots)
    by_tests true eb true ec h =
        ground (arith, ec, ap (λ z. has_root z roots) (str_eq-eq y e ec), eb)
    by_tests true eb false ec h = ground (arith, ec, h)
    by_tests false eb true ec h =
        ground (arith, h, ap (λ z. has_root z roots) (str_eq-eq y e ec), eb)
    by_tests false eb false ec h = ground (arith, h)

keep-IsDistinct : (roots xs : List Bytes) → IsDistinct xs → IsDistinct (keep roots xs)
unfolding keep
keep-IsDistinct roots [] d = tt
keep-IsDistinct roots (e ∷ xs) (f, d) = by_test (has_root e roots) (keep-IsDistinct roots xs d)
  where
    by_test :
        (b : Bool)
        → IsDistinct (keep roots xs)
        → IsDistinct (if b then e ∷ keep roots xs else keep roots xs)
    by_test true c = (ground (arith, keep-supports roots xs e, f), c)
    by_test false c = c

module _ ⦃g : Slist⦄ (slist : IsSlist g) where
  filter_from-keep :
      (roots kept rest types : List Bytes)
      → types ≡ kept ++ rest
      → filter_from roots kept rest types ≡ kept ++ keep roots rest
  unfolding filter_from keep
  filter_from-keep roots kept [] types e = e
  filter_from-keep roots kept (x ∷ rest) types e =
      by_link (g.find_custom (same_root x) roots) refl
        (filter_from-keep roots (kept ++ (x ∷ [])) rest types
          (e ∙ sym (append_assoc kept (x ∷ []) rest)))
        (filter_from-keep roots kept rest
          (g.delete_link (record { before = kept; data_of = x; after = rest })) (slist.deleted _))
    where
      rooted : (l : Link) → g.find_custom (same_root x) roots ≡ some l → has_root x roots ≡ true
      rooted l el =
          let (parts, fits) = slist.found (same_root x) roots l el in
          ap (has_root x) (sym parts) ∙ has_root-middle x l.data_of l.before l.after fits

      by_link :
          (r : Option Link)
          → g.find_custom (same_root x) roots ≡ r
          → filter_from roots (kept ++ (x ∷ [])) rest types ≡ (kept ++ (x ∷ [])) ++ keep roots rest
          → filter_from roots kept rest
              (g.delete_link (record { before = kept; data_of = x; after = rest }))
            ≡ kept ++ keep roots rest
          → elim r as (λ _. List Bytes) [
            | some _ ↦ filter_from roots (kept ++ (x ∷ [])) rest types
            | none ↦
                filter_from roots kept rest
                  (g.delete_link (record { before = kept; data_of = x; after = rest }))
          ]
            ≡ kept ++ (if has_root x roots then x ∷ keep roots rest else keep roots rest)
      by_link (some l) el p q =
          p
          ∙ append_assoc kept (x ∷ []) (keep roots rest)
          ∙ ap (λ b. kept ++ (if b then x ∷ keep roots rest else keep roots rest))
              (sym (rooted l el))
      by_link none el p q =
          q
          ∙ ap (λ b. kept ++ (if b then x ∷ keep roots rest else keep roots rest))
              (sym (has_root_none x roots (slist.missed (same_root x) roots el)))

  roots-supports :
      (roots xs : List Bytes)
      → IsDistinct xs
      → IsDistinct (filter_roots roots xs)
        × ((y : Bytes) → supports y (filter_roots roots xs) ≡ (supports y xs && allowed y roots))
  unfolding filter_roots allowed
  roots-supports [] xs d = (d, λ y. ground arith)
  roots-supports (r ∷ roots) xs d =
      let e = filter_from-keep (r ∷ roots) [] xs xs refl in
      (
        subst IsDistinct (sym e) (keep-IsDistinct (r ∷ roots) xs d),
        λ y. ap (supports y) e ∙ keep-supports (r ∷ roots) xs y,
      )

  -- If the functions of GLib do what its manual says, the filter of `connmgr_init` on a list without
  -- duplicates leaves one without duplicates, and in it are just the types that are not removed and
  -- that are added, or were there and have an allowed root, or any root if none is named.
  pub filtered_parts :
      (filter_string : Option Bytes) (types : List Bytes)
      → IsDistinct types
      → IsDistinct (filtered filter_string types)
        × ((y : Bytes)
            → supports y (filtered filter_string types) ≡ (
                ((supports y types && allowed y (parse_filter filter_string).allowed_roots)
                  || supports y (parse_filter filter_string).added_types)
                && not (supports y (parse_filter filter_string).removed_types)))
  unfolding filtered
  filtered_parts filter_string types d =
      let f = parse_filter filter_string in
      let (d1, e1) = roots-supports f.allowed_roots types d in
      let (d2, e2) = add_all-supports slist f.added_types (filter_roots f.allowed_roots types) d1 in
      let (d3, e3) =
        remove_all-supports slist f.removed_types
          (add_all f.added_types (filter_roots f.allowed_roots types)) d2 in
      (
        d3,
        λ y.
            e3 y
            ∙ ap (λ b. b && not (supports y f.removed_types))
                (e2 y ∙ ap (λ b. b || supports y f.added_types) (e1 y)),
      )
