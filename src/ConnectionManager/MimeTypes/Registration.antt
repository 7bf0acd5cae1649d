-- ===== src/ConnectionManager/MimeTypes/Registration.antt =====
-- What `register_mime_type` does to the list.
use gmrender_resurrect.Prelude.{ℕ, zero, suc, ◌≡◌, arith, Bool, true, false, if◌then◌else◌, List}
use gmrender_resurrect.Prelude.Text.{Bytes, codes, str_eq, str_eq_refl}
use gmrender_resurrect.ConnectionManager.MimeTypes.{
  Slist, register_internal, register_if, register_aliases, register_fuel, register_mime_type,
}
use gmrender_resurrect.ConnectionManager.MimeTypes.Filtering.{
  supports, IsDistinct, IsSlist, add-Added,
}

-- A list with more types than another, and still no duplicate.
pub record Grown (xs ys : List Bytes) : Type 0 where
  pub distinct : IsDistinct xs → IsDistinct ys
  pub keeps : (y : Bytes) → supports y xs ≡ true → supports y ys ≡ true

Grown-refl : (xs : List Bytes) → Grown xs xs
Grown-refl xs = record { distinct = λ d. d; keeps = λ y h. h }

Grown-trans : {xs ys zs : List Bytes} → Grown xs ys → Grown ys zs → Grown xs zs
Grown-trans p q = record {
  distinct = λ d. q.distinct (p.distinct d);
  keeps = λ y h. q.keeps y (p.keeps y h);
}

Grown-if :
    (b : Bool) {xs ys zs : List Bytes} → Grown xs ys → Grown xs zs → Grown xs (if b then ys else zs)
Grown-if true p q = p
Grown-if false p q = q

module _ ⦃g : Slist⦄ (slist : IsSlist g) where
  internal-Grown : (t : Bytes) (xs : List Bytes) → Grown xs (register_internal t xs)
  internal-Grown t xs =
      let one = add-Added slist t xs in
      record { distinct = one.distinct; keeps = λ y h. ground (arith, one.supports_eq y, h) }

  internal-supports : (t : Bytes) (xs : List Bytes) → supports t (register_internal t xs) ≡ true
  internal-supports t xs =
      let one = add-Added slist t xs in ground (arith, one.supports_eq t, str_eq_refl t)

  if-Grown : (b : Bool) (t : Bytes) (xs : List Bytes) → Grown xs (register_if b t xs)
  if-Grown true t xs = internal-Grown t xs
  if-Grown false t xs = Grown-refl xs

  aliases-Grown : (t : Bytes) (xs : List Bytes) → Grown xs (register_aliases t xs)
  unfolding register_aliases
  aliases-Grown t xs =
      Grown-trans (if-Grown (str_eq (codes "audio/x-alac") t) (codes "audio/alac") xs) (
        Grown-trans (if-Grown (str_eq (codes "audio/x-aiff") t) (codes "audio/aiff") _) (
          Grown-trans (if-Grown (str_eq (codes "audio/x-m4a") t) (codes "audio/m4a") _)
            (if-Grown (str_eq (codes "audio/x-m4a") t) (codes "audio/mp4") _)))

  abbrev l16 : Bytes
  l16 = codes "audio/L16;rate=44100;channels=2"

  -- What follows the registration of the type itself.
  rest-Grown :
      (depth : ℕ) (t : Bytes) (xs : List Bytes)
      → ((ys : List Bytes) → Grown ys (register_fuel depth l16 ys))
      → Grown (register_internal t xs) (register_fuel (suc depth) t xs)
  unfolding register_fuel
  rest-Grown depth t xs again =
      Grown-trans
        (Grown-if (str_eq (codes "audio/mpeg") t)
          (Grown-trans (internal-Grown (codes "audio/x-mpeg") _)
            (Grown-trans (internal-Grown (codes "audio/x-scpls") _) (again _)))
          (Grown-refl _))
        (aliases-Grown t _)

  fuel-Grown : (depth : ℕ) (t : Bytes) (xs : List Bytes) → Grown xs (register_fuel depth t xs)
  unfolding register_fuel
  fuel-Grown zero t xs = Grown-refl xs
  fuel-Grown (suc depth) t xs =
      Grown-trans (internal-Grown t xs) (rest-Grown depth t xs (fuel-Grown depth l16))

  -- If the functions of GLib do what its manual says, a type that is registered is in the list
  -- afterwards, with all that were there before, and a list without duplicates stays one, whatever
  -- other names are registered with the type.
  pub register_mime_type-Grown :
      (t : Bytes) (xs : List Bytes)
      → (supports t (register_mime_type t xs) ≡ true) × Grown xs (register_mime_type t xs)
  unfolding register_mime_type
  register_mime_type-Grown t xs =
      ((rest-Grown 1 t xs (fuel-Grown 1 l16)).keeps t (internal-supports t xs), fuel-Grown 2 t xs)
