-- ===== src/Tests/MimeTypes.antt =====
-- The list of the MIME types with lists as the manual of GLib describes them.
use gmrender_resurrect.Prelude.{
  ◌≡◌, refl, sym, ap, ◌∙◌, arith, Bool, true, false, not, ◌&&◌, ◌||◌, Option, none, some, List, [],
  ◌∷◌, ◌++◌, ltb, if◌then◌else◌, append_assoc,
}
use mathlib.Core.Path.{subst}
use mathlib.Core.Option.{some-injective, none-ne-some}
use gmrender_resurrect.Prelude.Text.{Bytes, codes, str_eq, str_eq-eq}
use gmrender_resurrect.ConnectionManager.MimeTypes.{Link, Slist, register_mime_type, filtered}
use gmrender_resurrect.ConnectionManager.MimeTypes.Filtering.{supports, IsDistinct, IsSlist}
use gmrender_resurrect.ConnectionManager.MimeTypes.FilterText.{
  Part, allow, add, drop, filter_text, AreWritable, names_root, allows, adds, drops,
  filtered-supports,
}
use gmrender_resurrect.ConnectionManager.MimeTypes.Registration.{Grown, register_mime_type-Grown}

-- The first element that fits, behind `passed`.
find_behind : List Bytes → (Bytes → Bool) → List Bytes → Option Link
find_behind passed p [] = none
find_behind passed p (x ∷ xs) =
    let later = find_behind (passed ++ (x ∷ [])) p xs in
    if p x then some (record { before = passed; data_of = x; after = xs }) else later

-- `strcmp(a, b) < 0`
is_before : Bytes → Bytes → Bool
is_before [] [] = false
is_before [] (y ∷ b) = true
is_before (x ∷ a) [] = false
is_before (x ∷ a) (y ∷ b) = ltb x y || (not (ltb y x) && is_before a b)

insert : Bytes → List Bytes → List Bytes
insert t [] = t ∷ []
insert t (x ∷ xs) = let later = x ∷ insert t xs in if is_before t x then t ∷ x ∷ xs else later

instance abbrev lists : Slist
lists = record {
  find_custom = find_behind [];
  delete_link = λ l. l.before ++ l.after;
  insert_sorted = insert;
}

link_found :
    (p : Bytes → Bool) (passed xs : List Bytes) (l : Link)
    → find_behind passed p xs ≡ some l
    → (l.before ++ (l.data_of ∷ l.after) ≡ passed ++ xs) × (p l.data_of ≡ true)
unfolding find_behind
link_found p passed [] l e = absurd (none-ne-some _ e)
link_found p passed (x ∷ xs) l e = by_test (p x) refl e (link_found p (passed ++ (x ∷ [])) xs l)
  where
    by_test :
        (b : Bool)
        → p x ≡ b
        → (if b
            then some (record { before = passed; data_of = x; after = xs })
            else find_behind (passed ++ (x ∷ [])) p xs)
          ≡ some l
        → (find_behind (passed ++ (x ∷ [])) p xs ≡ some l
            → (l.before ++ (l.data_of ∷ l.after) ≡ (passed ++ (x ∷ [])) ++ xs)
              × (p l.data_of ≡ true))
        → (l.before ++ (l.data_of ∷ l.after) ≡ passed ++ (x ∷ xs)) × (p l.data_of ≡ true)
    by_test true ep el deeper =
        subst (λ l. (l.before ++ (l.data_of ∷ l.after) ≡ passed ++ (x ∷ xs)) × (p l.data_of ≡ true))
          (some-injective _ _ el) (refl, ep)
    by_test false ep el deeper =
        let (parts, fits) = deeper el in (parts ∙ append_assoc passed (x ∷ []) xs, fits)

link_missed :
    (p : Bytes → Bool) (passed xs : List Bytes)
    → find_behind passed p xs ≡ none
    → (a : Bytes) → supports a xs ≡ true
    → p a ≡ false
unfolding find_behind supports
link_missed p passed [] e a m = absurd (ground (arith, m))
link_missed p passed (x ∷ xs) e a m =
    by_tests (p x) refl (str_eq a x) refl e m (link_missed p (passed ++ (x ∷ [])) xs)
  where
    by_tests :
        (b : Bool)
        → p x ≡ b
        → (c : Bool) → str_eq a x ≡ c
        → (if b
            then some (record { before = passed; data_of = x; after = xs })
            else find_behind (passed ++ (x ∷ [])) p xs)
          ≡ none
        → (c || supports a xs) ≡ true
        → (find_behind (passed ++ (x ∷ [])) p xs ≡ none
            → (a : Bytes) → supports a xs ≡ true
            → p a ≡ false)
        → p a ≡ false
    by_tests true ep c ec e m deeper = absurd (none-ne-some _ (sym e))
    by_tests false ep true ec e m deeper = ap p (str_eq-eq a x ec) ∙ ep
    by_tests false ep false ec e m deeper = deeper e a m

link_inserted :
    (t : Bytes) (xs : List Bytes)
    → (a b : List Bytes) × (a ++ b ≡ xs) × (insert t xs ≡ a ++ (t ∷ b))
unfolding insert
link_inserted t [] = ([], [], refl, refl)
link_inserted t (x ∷ xs) = by_test (is_before t x) (link_inserted t xs)
  where
    by_test :
        (b : Bool)
        → (c d : List Bytes) × (c ++ d ≡ xs) × (insert t xs ≡ c ++ (t ∷ d))
        → (c d : List Bytes) × (c ++ d ≡ x ∷ xs)
          × ((if b then t ∷ x ∷ xs else x ∷ insert t xs) ≡ c ++ (t ∷ d))
    by_test true _ = ([], x ∷ xs, refl, refl)
    by_test false (c, d, e, f) = (x ∷ c, d, ap (λ l. x ∷ l) e, ap (λ l. x ∷ l) f)

lists-IsSlist : IsSlist lists
lists-IsSlist = record {
  found = λ p xs l e. link_found p [] xs l e;
  missed = λ p xs e. link_missed p [] xs e;
  deleted = λ l. refl;
  inserted = link_inserted;
}

register_mime_type-Grown_example :
    (supports
        (codes "audio/mpeg")
        (register_mime_type (codes "audio/mpeg") (codes "audio/ogg" ∷ []))
      ≡ true)
    × Grown
        (codes "audio/ogg" ∷ [])
        (register_mime_type (codes "audio/mpeg") (codes "audio/ogg" ∷ []))
register_mime_type-Grown_example =
    register_mime_type-Grown lists-IsSlist (codes "audio/mpeg") (codes "audio/ogg" ∷ [])

abbrev some_types : List Bytes
some_types = codes "audio/ogg" ∷ codes "video/mp4" ∷ []

some_types-IsDistinct : IsDistinct some_types
unfolding supports str_eq
some_types-IsDistinct = (refl, (refl, tt))

abbrev audio_parts : List Part
audio_parts = allow (codes "audio") ∷ add (codes "image/png") ∷ drop (codes "audio/ogg") ∷ []

audio_parts-AreWritable : AreWritable audio_parts
audio_parts-AreWritable = ground arith

filtered-supports_example :
    IsDistinct (filtered (some (filter_text audio_parts)) some_types)
    × ((y : Bytes)
        → supports y (filtered (some (filter_text audio_parts)) some_types) ≡ (
            ((supports y some_types && (not (names_root audio_parts) || allows y audio_parts))
              || adds y audio_parts)
            && not (drops y audio_parts)))
filtered-supports_example =
    filtered-supports lists-IsSlist audio_parts some_types audio_parts-AreWritable
      some_types-IsDistinct
