-- ===== src/WebServer/Reading.antt =====
-- Reading and seeking in an open file.
use Prim.Native.Nat.{min}
use gmrender_resurrect.Prelude.{
  ℕ, ◌+◌, ◌-◌, ◌≤◌, ◌<◌, ◌^◌, ◌≡◌, refl, sym, ap, ◌∙◌, arith, Bool, true, false, Option, none, some,
  if◌then◌else◌, List, [], ◌∷◌, ◌++◌, ltb, length, take, drop, length-drop, take-more, take_all,
  drop-more,
}
use gmrender_resurrect.Prelude.Text.{Bytes}
use gmrender_resurrect.Prelude.Int.{ℤ, pos, negsuc, as_int}
use gmrender_resurrect.Prelude.Run.{
  Run, ◌>>=◌, ◌>>◌, pure, Returns, returns, Returns-bind, Returns-weaken,
}
use mathlib.Core.Path.{subst}
use gmrender_resurrect.WebServer.{
  WebServerFile, Origin, remaining, minimum, copied, read, read_length, seek, new_position, move_to,
}

-- A file with its position inside it, and of a size that an int holds.
pub record IsOpen (file : WebServerFile) : Type 0 where
  pub pos-le : file.pos ≤ file.len
  pub len_eq : length file.contents ≡ file.len
  pub small : file.len < 2 ^ 31

as_int-pos : (n : ℕ) → n < 2 ^ 31 → as_int (pos n) ≡ pos n
unfolding as_int
as_int-pos n h = ground (arith, h)

minimum-pos : (a b : ℕ) → minimum (pos a) (pos b) ≡ pos (min a b)
unfolding minimum
minimum-pos a b = ground arith

remaining_eq : (file : WebServerFile) → IsOpen file → remaining file ≡ file.len - file.pos
remaining_eq file good = omega (arith, good.pos-le, good.small)

copied_eq :
    (file : WebServerFile) (n : ℕ)
    → file.pos + n ≤ length file.contents
    → copied file (pos n) ≡ some (take n (drop file.pos file.contents))
unfolding copied
copied_eq file n h = ground (arith, h)

-- How much a read of `buflen` bytes gives.
abbrev pub amount : ℕ → WebServerFile → ℕ
amount buflen file = min buflen (file.len - file.pos)

abbrev pub advanced : ℕ → WebServerFile → WebServerFile
advanced n file = record file { pos = file.pos + n }

read_length_eq :
    (n : ℕ) (file : WebServerFile)
    → file.pos + n ≤ length file.contents
    → read_length (pos n) file
      ≡ some ((pos n, take n (drop file.pos file.contents)), advanced n file)
unfolding read_length
read_length_eq n file h =
    ap (elim [ none ↦ none | some buf ↦ some ((pos n, buf), advanced n file) ]) (copied_eq file n h)

length_eq :
    (buflen : ℕ) (file : WebServerFile)
    → IsOpen file
    → buflen < 2 ^ 31
    → minimum (as_int (pos buflen)) (as_int (pos (remaining file))) ≡ pos (amount buflen file)
length_eq buflen file good h =
    ap (λ n. minimum (as_int (pos buflen)) (as_int (pos n))) (remaining_eq file good)
    ∙ ap (λ a. minimum a (as_int (pos (file.len - file.pos)))) (as_int-pos buflen h)
    ∙ ap (minimum (pos buflen)) (as_int-pos (file.len - file.pos) (omega (arith, good.small)))
    ∙ minimum-pos buflen (file.len - file.pos)

pub read_eq :
    (buflen : ℕ) (file : WebServerFile)
    → IsOpen file
    → buflen < 2 ^ 31
    → read buflen file
      ≡ some (
        (pos (amount buflen file), take (amount buflen file) (drop file.pos file.contents)),
        advanced (amount buflen file) file,
      )
unfolding read
read_eq buflen file good h =
    ap (λ len. read_length len file) (length_eq buflen file good h)
    ∙ read_length_eq (amount buflen file) file (omega (arith, good.len_eq, good.pos-le))

-- The data of reads of the sizes `sizes`, one after the other.
pub read_all : List ℕ → Run WebServerFile Bytes
read_all [] = pure []
read_all (n ∷ sizes) = do got ← read n; rest ← read_all sizes; pure (got.1 ++ rest)

abbrev pub sum : List ℕ → ℕ
sum [] = 0
sum (n ∷ sizes) = n + sum sizes

abbrev pub AreInts : List ℕ → Type 0
AreInts [] = Unit
AreInts (n ∷ sizes) = (n < 2 ^ 31) × AreInts sizes

pub advanced-IsOpen :
    (n : ℕ) (file : WebServerFile)
    → IsOpen file
    → file.pos + n ≤ file.len
    → IsOpen (advanced n file)
advanced-IsOpen n file good h = record { pos-le = h; len_eq = good.len_eq; small = good.small }

-- A read takes what is asked for as far as there is so much.
take-amount : (n m : ℕ) (xs : Bytes) → take (min n (length xs) + m) xs ≡ take (n + m) xs
take-amount n m xs = by_size (ltb n (length xs)) refl
  where
    by_size : (b : Bool) → ltb n (length xs) ≡ b → take (min n (length xs) + m) xs ≡ take (n + m) xs
    by_size true e = ap (λ k. take (k + m) xs) (ground (arith, e))
    by_size false e =
        take_all (min n (length xs) + m) xs (ground (arith, e))
        ∙ sym (take_all (n + m) xs (ground (arith, e)))

-- What is left from the position on.
abbrev pub rest_of : WebServerFile → Bytes
rest_of file = drop file.pos file.contents

rest_of-advanced :
    (n : ℕ) (file : WebServerFile) → rest_of (advanced n file) ≡ drop n (rest_of file)
rest_of-advanced n file = sym (drop-more file.pos n file.contents)

length-rest_of : (file : WebServerFile) → IsOpen file → length (rest_of file) ≡ file.len - file.pos
length-rest_of file good = length-drop file.pos file.contents ∙ ap (λ n. n - file.pos) good.len_eq

unmoved : (file : WebServerFile) → file.pos ≡ file.pos + amount 0 file
unmoved file = omega arith

joined :
    (n m : ℕ) (file : WebServerFile)
    → IsOpen file
    → take (amount n file) (rest_of file) ++ take m (rest_of (advanced (amount n file) file))
      ≡ take (n + m) (rest_of file)
joined n m file good =
    ap (λ r. take (amount n file) (rest_of file) ++ take m r)
      (rest_of-advanced (amount n file) file)
    ∙ take-more (amount n file) m (rest_of file)
    ∙ ap (λ l. take (min n l + m) (rest_of file)) (sym (length-rest_of file good))
    ∙ take-amount n m (rest_of file)

moved :
    (n m : ℕ) (file : WebServerFile)
    → IsOpen file
    → advanced (amount m (advanced (amount n file) file)) (advanced (amount n file) file)
      ≡ advanced (amount (n + m) file) file
moved n m file good = ap (λ p. record file { pos = p }) (position n m file.pos file.len)
  where
    position :
        (n m p l : ℕ)
        → p + min n (l - p) + min m (l - (p + min n (l - p))) ≡ p + min (n + m) (l - p)
    position n m p l = omega arith

-- Reads of any sizes that fit an int give, put together, the bytes from the position on, as many as
-- were asked for or as there are, and leave the position behind them.
pub read_all_lem :
    (sizes : List ℕ) (file : WebServerFile)
    → IsOpen file
    → AreInts sizes
    → read_all sizes file
      ≡ some (take (sum sizes) (rest_of file), advanced (amount (sum sizes) file) file)
unfolding read_all
read_all_lem [] file good h = ap (λ p. some ([], record file { pos = p })) (unmoved file)
read_all_lem (n ∷ sizes) file good (h, hs) =
    ap (elim [ none ↦ none | some (got, f) ↦ (read_all sizes >>= λ rest. pure (got.1 ++ rest)) f ])
      (read_eq n file good h)
    ∙ ap
        (elim [
          | none ↦ none
          | some (rest, f) ↦ some (take (amount n file) (rest_of file) ++ rest, f)
        ])
        (read_all_lem sizes (advanced (amount n file) file)
          (advanced-IsOpen (amount n file) file good (omega (arith, good.pos-le))) hs)
    ∙ λ i. some (joined n (sum sizes) file good i, moved n (sum sizes) file good i)

-- What libupnp does with an open file.
pub data Access : Type 0 where
  read_bytes : ℕ → Access
  seek_by : ℤ → Origin → Access

pub access : Access → Run WebServerFile (Unit {0})
access (read_bytes buflen) = read buflen >> pure tt
access (seek_by offset origin) = seek offset origin >> pure tt

pub access_all : List Access → Run WebServerFile (Unit {0})
access_all [] = pure tt
access_all (a ∷ rest) = access a >> access_all rest

abbrev pub AreFit : List Access → Type 0
AreFit [] = Unit
AreFit (read_bytes buflen ∷ rest) = (buflen < 2 ^ 31) × AreFit rest
AreFit (seek_by offset origin ∷ rest) = AreFit rest

-- The file with another position, which is inside of it.
abbrev pub Moved : WebServerFile → WebServerFile → Type 0
Moved file after = IsOpen after × (after.contents ≡ file.contents) × (after.len ≡ file.len)

move_to-Moved :
    (newpos : ℤ) (file : WebServerFile)
    → IsOpen file
    → Returns (λ rc after. Moved file after) (move_to newpos file)
unfolding move_to
move_to-Moved (negsuc n) file good = returns _ file (good, refl, refl)
move_to-Moved (pos n) file good = by_size (ltb file.len n) refl
  where
    by_size :
        (b : Bool)
        → ltb file.len n ≡ b
        → Returns
            (λ rc after. Moved file after)
            (if b then some (negsuc 0, file) else some (pos 0, record file { pos = n }))
    by_size true e = returns _ file (good, refl, refl)
    by_size false e = returns _ _ (
      record { pos-le = ground (arith, e); len_eq = good.len_eq; small = good.small },
      refl,
      refl,
    )

seek-Moved :
    (offset : ℤ) (origin : Origin) (file : WebServerFile)
    → IsOpen file
    → Returns (λ rc after. Moved file after) (seek offset origin file)
unfolding seek
seek-Moved offset origin file good = move_to-Moved (new_position offset origin file) file good

read-Moved :
    (buflen : ℕ) (file : WebServerFile)
    → IsOpen file
    → buflen < 2 ^ 31
    → Returns (λ got after. Moved file after) (read buflen file)
read-Moved buflen file good h =
    subst (Returns (λ got after. Moved file after)) (sym (read_eq buflen file good h)) (
      returns _ _
        (advanced-IsOpen (amount buflen file) file good (omega (arith, good.pos-le)), refl, refl))

then-Moved :
    (file after : WebServerFile)
    → Moved file after
    → {r : Option (Unit {0} × WebServerFile)} → Returns (λ _ last. Moved after last) r
    → Returns (λ _ last. Moved file last) r
then-Moved file after (g, c, l) m = Returns-weaken m λ _ last (g', c', l'). (g', c' ∙ c, l' ∙ l)

-- On an open file no larger than an int holds, any sequence of reads, of sizes that fit an int, and
-- of seeks, to wherever, goes through without a read outside of the contents, and leaves the
-- position inside the file and the contents as they are.
pub access_all-Moved :
    (accesses : List Access) (file : WebServerFile)
    → IsOpen file
    → AreFit accesses
    → Returns (λ _ after. Moved file after) (access_all accesses file)
unfolding access_all access
access_all-Moved [] file good h = returns _ file (good, refl, refl)
access_all-Moved (read_bytes buflen ∷ rest) file good (h, hs) =
    Returns-bind {P = λ _ after. Moved file after} (access (read_bytes buflen))
      (λ _. access_all rest) file
      (Returns-bind (read buflen) (λ _. pure tt) file (read-Moved buflen file good h)
        λ _ after m. returns tt after m)
      λ _ after m. then-Moved file after m (access_all-Moved rest after m.0 hs)
access_all-Moved (seek_by offset origin ∷ rest) file good hs =
    Returns-bind {P = λ _ after. Moved file after} (access (seek_by offset origin))
      (λ _. access_all rest) file
      (Returns-bind (seek offset origin) (λ _. pure tt) file (seek-Moved offset origin file good)
        λ _ after m. returns tt after m)
      λ _ after m. then-Moved file after m (access_all-Moved rest after m.0 hs)
