-- ===== src/WebServer/Serving.antt =====
-- From the registration of a file to what is read from it.
use gmrender_resurrect.Prelude.{
  ℕ, ◌≤◌, ◌<◌, ◌^◌, ◌≡◌, ◌≢◌, ◌++◌, take, refl, sym, ap, ◌∙◌, arith, ◌⊎◌, inl, inr, Bool, true,
  false, Option, none, some, if◌then◌else◌, List, [], ◌∷◌, ◌==◌, length, take_all,
}
use gmrender_resurrect.Prelude.Text.{Bytes, str_eq_refl}
use gmrender_resurrect.Prelude.Int.{ℤ, pos, negsuc}
use gmrender_resurrect.Prelude.Run.{◌>>=◌, deref, Returns, returns}
use mathlib.Core.Path.{subst}
use gmrender_resurrect.WebServer.{
  VirtualFile, WebServerFile, LocalFiles, register_buf, register_file, find_file, open_file,
  last_slash, local_fname, load_file, read_in,
}
use gmrender_resurrect.WebServer.Reading.{
  IsOpen, AreInts, sum, read_all, read_all_lem, advanced, amount,
}

-- A file that is registered from a buffer is served whole: opened under its name for reading it
-- begins at its start, and reads of any sizes that fit an int and that together ask for its length
-- at least give just its contents. Its length is to fit an int, too.
pub register_buf-served :
    (path contents content_type : Bytes) (files : List VirtualFile) (sizes : List ℕ)
    → length contents < 2 ^ 31
    → AreInts sizes
    → length contents ≤ sum sizes
    → (after : List VirtualFile) × (file last : WebServerFile) × (register_buf
          (some path)
          (some contents)
          (some content_type)
          files
        ≡ some (pos 0, after))
      × (open_file path true after ≡ some file)
      × (read_all sizes file ≡ some (contents, last))
unfolding register_buf open_file find_file
register_buf-served path contents content_type files sizes small ints enough =
    let file : WebServerFile = record { pos = 0; contents = contents; len = length contents } in
    let good : IsOpen file = record { pos-le = omega arith; len_eq = refl; small = small } in
    (
      _,
      file,
      advanced (amount (sum sizes) file) file,
      refl,
      ground (arith, str_eq_refl path),
      read_all_lem sizes file good ints
          ∙ ap (λ c. some (c, advanced (amount (sum sizes) file) file))
              (take_all (sum sizes) contents enough),
    )

-- No slash in a name.
abbrev pub IsPlain : Bytes → Type 0
IsPlain [] = Unit {0}
IsPlain (c ∷ name) = (c ≢ b'/') × IsPlain name

last_slash-plain : (name : Bytes) → IsPlain name → last_slash name ≡ none
unfolding last_slash
last_slash-plain [] p = refl
last_slash-plain (c ∷ name) (ne, p) = ground (arith, last_slash-plain name p, ne)

last_slash-append :
    (dir name : Bytes) → IsPlain name → last_slash (dir ++ (b'/' ∷ name)) ≡ some (b'/' ∷ name)
unfolding last_slash
last_slash-append [] name p = ground (arith, last_slash-plain name p)
last_slash-append (c ∷ dir) name p = ground (arith, last_slash-append dir name p)

-- The entry of a file with these contents.
abbrev pub entry_of : Bytes → Bytes → ℕ → Bytes → VirtualFile
entry_of path content_type size contents = record {
  virtual_fname = path;
  contents = contents;
  content_type = content_type;
  len = size;
}

-- A registration that worked: the file is there, and its contents are what was read of it, or none
-- if it is empty.
abbrev pub Registered :
    LocalFiles → Bytes → Bytes → Bytes → List VirtualFile → ℤ → List VirtualFile → Type 0
Registered local name path content_type files rc after =
    (rc ≡ pos 0)
    × (size : ℕ) × (contents : Bytes) × (local.stat name ≡ some size)
    × (((size ≡ 0) × (contents ≡ [])) ⊎ (local.read_file name size ≡ some contents))
    × (after ≡ entry_of path content_type size contents ∷ files)

-- A registration that did not: the file is not there, or cannot be read.
abbrev pub Refused : LocalFiles → Bytes → List VirtualFile → ℤ → List VirtualFile → Type 0
Refused local name files rc after =
    (rc ≡ negsuc 0)
    × (after ≡ files)
    × ((local.stat name ≡ none)
        ⊎ ((size : ℕ) × (size ≢ 0)
            × (local.stat name ≡ some size)
            × (local.read_file name size ≡ none)))

module _ (local : LocalFiles) where
  abbrev Outcome : Bytes → Bytes → Bytes → List VirtualFile → ℤ → List VirtualFile → Type 0
  Outcome name path content_type files rc after =
      Registered local name path content_type files rc after ⊎ Refused local name files rc after

  load_file-Returns :
      (path content_type name : Bytes) (files : List VirtualFile) (r : Option ℕ)
      → local.stat name ≡ r
      → Returns
          (Outcome name path content_type files)
          (load_file local path content_type name r files)
  load_file-Returns path content_type name files none e = returns _ _ (inr (refl, refl, inl e))
  load_file-Returns path content_type name files (some size) known =
      by_size (size == 0) refl (local.read_file name size) refl
    where
      by_size :
          (b : Bool)
          → (size == 0) ≡ b
          → (r : Option Bytes) → local.read_file name size ≡ r
          → Returns (Outcome name path content_type files) (
              if b
              then some (pos 0, entry_of path content_type 0 [] ∷ files)
              else read_in path content_type size r files)
      by_size true eb r e =
          let zero_size : size ≡ 0 = ground (arith, eb) in
          returns _ _ (
            inl (
              refl,
              size,
              [],
              known,
              inl (zero_size, refl),
              ap (λ n. entry_of path content_type n [] ∷ files) (sym zero_size),
            ))
      by_size false eb none e =
          returns _ _ (inr (refl, refl, inr (size, (λ z. ground (arith, eb, z)), known, e)))
      by_size false eb (some cbuf) e = returns _ _ (inl (refl, size, cbuf, known, inr e, refl))

-- The registration of a local file under a path with a slash, of which `name` is what stands after the
-- last one, looks at the file `name` in the directory of the package, whose full name is cut at 511
-- bytes. It gives 0 and puts one entry before the others, with the path, the content type, the
-- size that `stat` tells, and as contents what is read of the file, or nothing if its size is 0; or
-- it gives -1 and adds none, and that only where `stat` fails, or the size is not 0 and reading fails.
pub register_file-Returns :
    (local : LocalFiles) (dir name content_type : Bytes) (files : List VirtualFile)
    → IsPlain name
    → Returns
        (λ rc after.
          Registered local
            (take 511 (local.pkg_datadir ++ (b'/' ∷ name)))
            (dir ++ (b'/' ∷ name))
            content_type
            files
            rc
            after
          ⊎ Refused local (take 511 (local.pkg_datadir ++ (b'/' ∷ name))) files rc after)
        (register_file local (dir ++ (b'/' ∷ name)) content_type files)
unfolding register_file local_fname
register_file-Returns local dir name content_type files plain =
    let path = dir ++ (b'/' ∷ name) in
    let found = take 511 (local.pkg_datadir ++ (b'/' ∷ name)) in
    subst
      (λ r. Returns (Outcome local found path content_type files) (
        (deref r >>= λ b.
        load_file local path content_type (local_fname local b) (local.stat (local_fname local b)))
          files))
      (sym (last_slash-append dir name plain))
      (load_file-Returns local path content_type found files (local.stat found) refl)
