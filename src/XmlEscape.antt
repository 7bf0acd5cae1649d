-- ===== src/XmlEscape.antt =====
-- src/xmlescape.c: escaping of XML text. The first pass of `xmlescape` measures, the second
-- writes into a buffer of that size; a write outside the buffer is a fault (`none`), and so is an
-- int that overflows.
pub mod Laws
use gmrender_resurrect.Prelude.{
  ℕ, ◌+◌, ◌^◌, ◌≡◌, refl, Bool, true, false, ◌&&◌, Option, none, some, [], ◌∷◌, ◌++◌, ltb, leb,
  ◌==◌, if◌then◌else◌, length,
}
use gmrender_resurrect.Prelude.Text.{Bytes, codes}

-- The result of an addition in C's int, of numbers that are not negative.
unfoldable pub fit : ℕ → Option ℕ
fit n = if ltb n (2 ^ 31) then some n else none

-- How far one round of the counting loop moves `len`.
unfoldable pub escape_step : ℕ → Bool → ℕ
escape_step c attribute =
    if c == b'<'
    then 4
    else if attribute && (c == b'"')
    then 3
    else if c == b'>'
    then 4
    else if c == b'&'
    then 5
    else 1

-- `xmlescape_real` with no target: the loop that counts, with `len` so far.
pub escape_length : Bytes → Bool → ℕ → Option ℕ
unfolding fit escape_step
escape_length [] attribute len = some len
escape_length (c ∷ str) attribute len = elim (fit (len + escape_step c attribute)) [
  | none ↦ none
  | some next ↦ escape_length str attribute next
]

-- What one round of the writing loop copies to the target.
unfoldable pub escape_byte : ℕ → Bool → Bytes
escape_byte c attribute =
    if c == b'<'
    then codes "&lt;"
    else if attribute && (c == b'"')
    then codes "%22"
    else if c == b'>'
    then codes "&gt;"
    else if c == b'&'
    then codes "&amp;"
    else c ∷ []

-- `memcpy(target + len, text, n)` into a buffer of `capacity` bytes, of which the first are written,
-- and `len += n`.
pub copy_to : ℕ → Bytes → Bytes → Option Bytes
copy_to capacity target text =
    let len = length target + length text in
    if leb len capacity && ltb len (2 ^ 31) then some (target ++ text) else none

-- `xmlescape_real` with a target: the loop that writes, up to the final NUL.
pub escape_to : ℕ → Bytes → Bool → Bytes → Option Bytes
unfolding copy_to
escape_to capacity [] attribute target =
    if leb (length target + 1) capacity then some target else none
escape_to capacity (c ∷ str) attribute target =
    elim (copy_to capacity target (escape_byte c attribute)) [
      | none ↦ none
      | some written ↦ escape_to capacity str attribute written
    ]

-- The size that `malloc` is asked for.
unfoldable pub escape_size : Bytes → Bool → Option ℕ
unfolding escape_length fit
escape_size str attribute = elim (escape_length str attribute 0) [
  | none ↦ none
  | some len ↦ fit (len + 1)
]

-- `xmlescape`: the escaped copy, or a fault.
unfoldable pub xmlescape : Bytes → Bool → Option Bytes
unfolding escape_size escape_to escape_byte
xmlescape str attribute = elim (escape_size str attribute) [
  | none ↦ none
  | some capacity ↦ escape_to capacity str attribute []
]

-- The text that escaping stands for, byte by byte.
abbrev pub escaped : Bytes → Bool → Bytes
escaped [] attribute = []
escaped (c ∷ str) attribute = escape_byte c attribute ++ escaped str attribute

-- `xmlescape` on a text whose escaped form fits an int with its NUL, where it does not fault.
unfoldable pub xmlescape_small : Bytes → Bool → Option Bytes
xmlescape_small str attribute = some (escaped str attribute)

pub xmlescape_small-eq :
    (str : Bytes) (attribute : Bool) → xmlescape_small str attribute ≡ some (escaped str attribute)
unfolding xmlescape_small
xmlescape_small-eq str attribute = refl
