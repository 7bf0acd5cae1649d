-- ===== src/ConnectionManager/MimeTypes/Filtering.antt =====
-- Which MIME types are left after the filter.
use mathlib.Core.Path.{subst}
use gmrender_resurrect.Prelude.{
  ◌≡◌, refl, sym, ap, ◌∙◌, arith, Bool, true, false, not, ◌&&◌, ◌||◌, Option, none, some, List, [],
  ◌∷◌, ◌++◌,
}
use gmrender_resurrect.Prelude.Text.{Bytes, str_eq, str_eq_refl, str_eq-eq}
use gmrender_resurrect.ConnectionManager.MimeTypes.{
  Link, Slist, add_mime_type, remove_mime_type, remove_found, add_all, remove_all,
}

-- Whether a text is in a list.
unfoldable pub supports : Bytes → List Bytes → Bool
supports y [] = false
supports y (x ∷ xs) = str_eq y x || supports y xs

-- No text twice.
abbrev pub IsDistinct : List Bytes → Type 0
IsDistinct [] = Unit
IsDistinct (x ∷ xs) = (supports x xs ≡ false) × IsDistinct xs

-- What the manual of GLib says of the functions.
pub record IsSlist (g : Slist) : Type 0 where
  pub found :
      (p : Bytes → Bool) (xs : List Bytes) (l : Link)
      → g.find_custom p xs ≡ some l
      → (l.before ++ (l.data_of ∷ l.after) ≡ xs) × (p l.data_of ≡ true)
  pub missed :
      (p : Bytes → Bool) (xs : List Bytes)
      → g.find_custom p xs ≡ none
      → (a : Bytes) → supports a xs ≡ true
      → p a ≡ false
  pub deleted : (l : Link) → g.delete_link l ≡ l.before ++ l.after
  pub inserted :
      (t : Bytes) (xs : List Bytes)
      → (a b : List Bytes) × (a ++ b ≡ xs) × (g.insert_sorted t xs ≡ a ++ (t ∷ b))

supports-append :
    (y : Bytes) (a b : List Bytes) → supports y (a ++ b) ≡ (supports y a || supports y b)
unfolding supports
supports-append y [] b = refl
supports-append y (x ∷ a) b = ground (arith, supports-append y a b)

str_eq_sym : (a b : Bytes) → str_eq a b ≡ false → str_eq b a ≡ false
str_eq_sym a b e = by_test (str_eq b a) refl
  where
    by_test : (c : Bool) → str_eq b a ≡ c → str_eq b a ≡ false
    by_test false ec = ec
    by_test true ec = absurd (ground (arith, e, ap (str_eq a) (str_eq-eq b a ec), str_eq_refl a))

-- A text in the middle.
supports-middle :
    (y t : Bytes) (a b : List Bytes)
    → supports y (a ++ (t ∷ b)) ≡ (supports y (a ++ b) || str_eq y t)
unfolding supports
supports-middle y t a b = ground (arith, supports-append y a (t ∷ b), supports-append y a b)

IsDistinct-insert :
    (t : Bytes) (a b : List Bytes)
    → supports t (a ++ b) ≡ false
    → IsDistinct (a ++ b)
    → IsDistinct (a ++ (t ∷ b))
unfolding supports
IsDistinct-insert t [] b h d = (h, d)
IsDistinct-insert t (x ∷ a) b h (e, d) = (
  ground (arith, e, supports-middle x t a b, str_eq_sym t x, h),
  IsDistinct-insert t a b (ground (arith, h)) d,
)

IsDistinct-middle :
    (t : Bytes) (a b : List Bytes)
    → IsDistinct (a ++ (t ∷ b))
    → (supports t (a ++ b) ≡ false) × IsDistinct (a ++ b)
unfolding supports
IsDistinct-middle t [] b (e, d) = (e, d)
IsDistinct-middle t (x ∷ a) b (e, d) =
    let (f, c) = IsDistinct-middle t a b d in
    (
      ground (arith, e, f, supports-middle x t a b, str_eq_sym x t),
      (ground (arith, e, supports-middle x t a b), c),
    )

-- What an equal text gives.
same_supports : (y t : Bytes) (xs : List Bytes) → str_eq y t ≡ true → supports y xs ≡ supports t xs
same_supports y t xs e = ap (λ z. supports z xs) (str_eq-eq y t e)

or_assoc : (a b c : Bool) → (a || b || c) ≡ (a || (b || c))
or_assoc a b c = ground arith

and_not : (a b c : Bool) → (a && not b && not c) ≡ (a && not (b || c))
and_not a b c = ground arith

already :
    (y t : Bytes) (xs : List Bytes)
    → supports t xs ≡ true
    → supports y xs ≡ (supports y xs || str_eq y t)
already y t xs h = ground (arith, same_supports y t xs, h)

without :
    (y t : Bytes) (xs : List Bytes)
    → supports t xs ≡ false
    → supports y xs ≡ (supports y xs && not (str_eq y t))
without y t xs h = ground (arith, same_supports y t xs, h)

without_middle :
    (y t : Bytes) (a b : List Bytes)
    → supports t (a ++ b) ≡ false
    → supports y (a ++ b) ≡ (supports y (a ++ (t ∷ b)) && not (str_eq y t))
without_middle y t a b h = ground (arith, same_supports y t (a ++ b), supports-middle y t a b, h)

module _ ⦃g : Slist⦄ (slist : IsSlist g) where
  absent :
      (t : Bytes) (xs : List Bytes) → g.find_custom (str_eq t) xs ≡ none → supports t xs ≡ false
  absent t xs e = by_test (supports t xs) refl
    where
      by_test : (b : Bool) → supports t xs ≡ b → supports t xs ≡ false
      by_test false eb = eb
      by_test true eb = absurd (ground (arith, slist.missed (str_eq t) xs e t eb, str_eq_refl t))

  present :
      (t : Bytes) (xs : List Bytes) (l : Link)
      → g.find_custom (str_eq t) xs ≡ some l
      → xs ≡ l.before ++ (t ∷ l.after)
  present t xs l e =
      let (parts, same) = slist.found (str_eq t) xs l e in
      sym parts ∙ ap (λ z. l.before ++ (z ∷ l.after)) (sym (str_eq-eq t l.data_of same))

  there :
      (t : Bytes) (xs : List Bytes) (l : Link)
      → g.find_custom (str_eq t) xs ≡ some l
      → supports t xs ≡ true
  there t xs l e =
      ap (supports t) (present t xs l e)
      ∙ ground (arith, supports-middle t t l.before l.after, str_eq_refl t)

  -- Adding a type.
  pub record Added (t : Bytes) (xs ys : List Bytes) : Type 0 where
    pub supports_eq : (y : Bytes) → supports y ys ≡ (supports y xs || str_eq y t)
    pub distinct : IsDistinct xs → IsDistinct ys

  pub add-Added : (t : Bytes) (xs : List Bytes) → Added t xs (add_mime_type t xs).1
  unfolding add_mime_type
  add-Added t xs = by_link (g.find_custom (str_eq t) xs) refl
    where
      by_link :
          (r : Option Link)
          → g.find_custom (str_eq t) xs ≡ r
          → Added t xs
              (elim r as (λ _. Bool × List Bytes) [
                | some _ ↦ (false, xs)
                | none ↦ (true, g.insert_sorted t xs)
              ]).1
      by_link (some l) e = record {
        supports_eq = λ y. already y t xs (there t xs l e);
        distinct = λ d. d;
      }
      by_link none e =
          let (a, b, parts, put) = slist.inserted t xs in
          record {
            supports_eq = λ y.
                ap (supports y) put
                ∙ supports-middle y t a b
                ∙ ap (λ z. supports y z || str_eq y t) parts;
            distinct = λ d. subst IsDistinct (sym put) (
                IsDistinct-insert t a b (ap (supports t) parts ∙ absent t xs e)
                  (subst IsDistinct (sym parts) d));
          }

  -- Removing a type.
  pub record Removed (t : Bytes) (xs ys : List Bytes) : Type 0 where
    pub supports_eq : (y : Bytes) → supports y ys ≡ (supports y xs && not (str_eq y t))
    pub distinct : IsDistinct ys

  found-Removed :
      (t : Bytes) (xs : List Bytes) (r : Option Link)
      → g.find_custom (str_eq t) xs ≡ r
      → IsDistinct xs
      → Removed t xs (remove_found r xs).1
  found-Removed t xs none e d = record {
    supports_eq = λ y. without y t xs (absent t xs e);
    distinct = d;
  }
  found-Removed t xs (some l) e d =
      let parts = present t xs l e in
      let (gone, rest) = IsDistinct-middle t l.before l.after (subst IsDistinct parts d) in
      record {
        supports_eq = λ y.
            ap (supports y) (slist.deleted l)
            ∙ without_middle y t l.before l.after gone
            ∙ ap (λ z. supports y z && not (str_eq y t)) (sym parts);
        distinct = subst IsDistinct (sym (slist.deleted l)) rest;
      }

  remove-Removed :
      (t : Bytes) (xs : List Bytes) → IsDistinct xs → Removed t xs (remove_mime_type t xs).1
  unfolding remove_mime_type supports
  remove-Removed t [] d = record { supports_eq = λ y. refl; distinct = tt }
  remove-Removed t (x ∷ xs) d = found-Removed t (x ∷ xs) (g.find_custom (str_eq t) (x ∷ xs)) refl d

  pub add_all-supports :
      (ts xs : List Bytes)
      → IsDistinct xs
      → IsDistinct (add_all ts xs)
        × ((y : Bytes) → supports y (add_all ts xs) ≡ (supports y xs || supports y ts))
  unfolding add_all supports
  add_all-supports [] xs d = (d, λ y. ground arith)
  add_all-supports (t ∷ ts) xs d =
      let one = add-Added t xs in
      let (c, f) = add_all-supports ts (add_mime_type t xs).1 (one.distinct d) in
      (
        c,
        λ y.
            f y
            ∙ ap (λ b. b || supports y ts) (one.supports_eq y)
            ∙ or_assoc (supports y xs) (str_eq y t) (supports y ts),
      )

  pub remove_all-supports :
      (ts xs : List Bytes)
      → IsDistinct xs
      → IsDistinct (remove_all ts xs)
        × ((y : Bytes) → supports y (remove_all ts xs) ≡ (supports y xs && not (supports y ts)))
  unfolding remove_all supports
  remove_all-supports [] xs d = (d, λ y. ground arith)
  remove_all-supports (t ∷ ts) xs d =
      let one = remove-Removed t xs d in
      let (c, f) = remove_all-supports ts (remove_mime_type t xs).1 one.distinct in
      (
        c,
        λ y.
            f y
            ∙ ap (λ b. b && not (supports y ts)) (one.supports_eq y)
            ∙ and_not (supports y xs) (str_eq y t) (supports y ts),
      )
