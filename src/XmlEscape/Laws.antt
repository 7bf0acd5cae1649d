-- ===== src/XmlEscape/Laws.antt =====
-- What src/xmlescape.c guarantees: the measured buffer is large enough, and text is recovered.
use mathlib.Core.Path.{subst}
use gmrender_resurrect.Prelude.{
  ℕ, zero, suc, ◌+◌, ◌^◌, ◌≤◌, ◌<◌, ◌≡◌, Option, none, ltb, ◌≢◌, refl, sym, ◌∙◌, ap, arith, Bool,
  true, false, some, [], ◌∷◌, ◌++◌, append_assoc, append-nil, if◌then◌else◌, length, length-append,
}
use gmrender_resurrect.Prelude.Text.{Bytes, codes, starts_with}
use gmrender_resurrect.XmlEscape.{
  fit, escape_step, escape_length, escape_byte, copy_to, escape_to, escape_size, xmlescape, escaped,
}

-- What the code computes of a text that fits.
abbrev result : Bytes → Bool → Option Bytes
result str attribute =
    if ltb (length (escaped str attribute) + 1) (2 ^ 31) then some (escaped str attribute) else none

escape_step-length :
    (c : ℕ) (attribute : Bool) → escape_step c attribute ≡ length (escape_byte c attribute)
unfolding escape_step escape_byte
escape_step-length c attribute = ground arith

-- A length that is over the int stays so.
escape_length-fit :
    (str : Bytes) (attribute : Bool) (len : ℕ)
    → len < 2 ^ 31
    → escape_length str attribute len ≡ fit (len + length (escaped str attribute))
unfolding escape_length fit
escape_length-fit [] attribute len small = ground arith
escape_length-fit (c ∷ str) attribute len small =
    by_test (ltb (len + escape_step c attribute) (2 ^ 31)) refl
      (escape_length-fit str attribute (len + escape_step c attribute))
  where
    by_test :
        (b : Bool)
        → ltb (len + escape_step c attribute) (2 ^ 31) ≡ b
        → (len + escape_step c attribute < 2 ^ 31
            → escape_length str attribute (len + escape_step c attribute)
              ≡ fit (len + escape_step c attribute + length (escaped str attribute)))
        → escape_length (c ∷ str) attribute len ≡ fit (len + length (escaped (c ∷ str) attribute))
    by_test b e later = ground (
      arith,
      e,
      later,
      escape_step-length c attribute,
      length-append {0} (escape_byte c attribute) (escaped str attribute),
    )

copy_to_fits :
    (capacity : ℕ) (target text : Bytes)
    → length target + length text ≤ capacity
    → capacity < 2 ^ 31
    → copy_to capacity target text ≡ some (target ++ text)
unfolding copy_to
copy_to_fits capacity target text h small = ground arith

escape_to-escaped :
    (capacity : ℕ) (str : Bytes) (attribute : Bool) (target : Bytes)
    → length target + length (escaped str attribute) + 1 ≤ capacity
    → capacity < 2 ^ 31
    → escape_to capacity str attribute target ≡ some (target ++ escaped str attribute)
unfolding escape_to
escape_to-escaped capacity [] attribute target h small = ground (arith, append-nil target)
escape_to-escaped capacity (c ∷ str) attribute target h small =
    rw
      (
        escape_to,
        copy_to_fits capacity target (escape_byte c attribute)
            (omega (arith, length-append {0} (escape_byte c attribute) (escaped str attribute)))
            small,
      )
      (escape_to-escaped capacity str attribute (target ++ escape_byte c attribute)
          (omega (
            arith,
            length-append {0} target (escape_byte c attribute),
            length-append {0} (escape_byte c attribute) (escaped str attribute),
          ))
          small
        ∙ ap some (append_assoc target (escape_byte c attribute) (escaped str attribute)))

escape_size-fit :
    (str : Bytes) (attribute : Bool)
    → escape_size str attribute ≡ fit (length (escaped str attribute) + 1)
unfolding escape_size fit
escape_size-fit str attribute = ground (arith, escape_length-fit str attribute 0 (omega arith))

-- `xmlescape` returns the text with every special byte replaced, and never writes outside the buffer
-- that it measured, if the escaped text and its NUL fit an int; else it faults, by an int that
-- overflows.
pub xmlescape-eq-escaped :
    (str : Bytes) (attribute : Bool)
    → xmlescape str attribute ≡ (
        if ltb (length (escaped str attribute) + 1) (2 ^ 31)
        then some (escaped str attribute)
        else none)
unfolding xmlescape fit
xmlescape-eq-escaped str attribute =
    by_test (ltb (length (escaped str attribute) + 1) (2 ^ 31)) refl
  where
    by_test :
        (b : Bool)
        → ltb (length (escaped str attribute) + 1) (2 ^ 31) ≡ b
        → xmlescape str attribute ≡ result str attribute
    by_test true e = ground (
      arith,
      e,
      escape_size-fit str attribute,
      escape_to-escaped (length (escaped str attribute) + 1) str attribute [] (omega arith)
          (ground (arith, e)),
    )
    by_test false e = ground (arith, e, escape_size-fit str attribute)

-- A text that is returned is the escaped one.
returned :
    (str : Bytes) (attribute : Bool) {out : Bytes}
    → xmlescape str attribute ≡ some out
    → escaped str attribute ≡ out
returned str attribute h = ground (arith, xmlescape-eq-escaped str attribute, h)

-- A reader of XML text: the byte that a text begins with, and how many bytes of it are left to skip.
abbrev pub entity : ℕ → Bytes → ℕ × ℕ
entity c rest =
    if starts_with (codes "&lt;") (c ∷ rest)
    then (b'<', 3)
    else if starts_with (codes "&gt;") (c ∷ rest)
    then (b'>', 3)
    else if starts_with (codes "&amp;") (c ∷ rest)
    then (b'&', 4)
    else (c, 0)

unfoldable pub unescape : ℕ → Bytes → Bytes
unescape skip [] = []
unescape (suc skip) (c ∷ s) = unescape skip s
unescape zero (c ∷ s) = let (byte, skip) = entity c s in byte ∷ unescape skip s

unescape-escape_byte :
    (c : ℕ) (rest : Bytes) → unescape 0 (escape_byte c false ++ rest) ≡ c ∷ unescape 0 rest
unfolding unescape escape_byte starts_with
unescape-escape_byte c rest = ground arith

unescape-escaped : (str : Bytes) → unescape 0 (escaped str false) ≡ str
unfolding unescape
unescape-escaped [] = refl
unescape-escaped (c ∷ str) =
    unescape-escape_byte c (escaped str false) ∙ ap (λ s. c ∷ s) (unescape-escaped str)

-- A reader of XML text that decodes `&lt;`, `&gt;` and `&amp;` gets back every text that was
-- escaped with no attribute flag.
pub unescape-xmlescape :
    (str : Bytes) {out : Bytes} → xmlescape str false ≡ some out → unescape 0 out ≡ str
unescape-xmlescape str h = cc (returned str false h, unescape-escaped str)

-- No byte that opens or closes a tag; inside an attribute no quote either.
abbrev pub IsInert : Bool → Bytes → Type 0
IsInert attribute [] = Unit {0}
IsInert attribute (c ∷ s) =
    (c ≢ b'<') × (c ≢ b'>') × (attribute ≡ true → c ≢ b'"') × IsInert attribute s

IsInert-append :
    (attribute : Bool) (a b : Bytes)
    → IsInert attribute a
    → IsInert attribute b
    → IsInert attribute (a ++ b)
IsInert-append attribute [] b ha hb = hb
IsInert-append attribute (c ∷ a) b ha hb = (ha.0, ha.1, ha.2, IsInert-append attribute a b ha.3 hb)

IsInert-escape_byte : (c : ℕ) (attribute : Bool) → IsInert attribute (escape_byte c attribute)
unfolding escape_byte
IsInert-escape_byte c true = ground arith
IsInert-escape_byte c false = ground arith

IsInert-escaped : (str : Bytes) (attribute : Bool) → IsInert attribute (escaped str attribute)
IsInert-escaped [] attribute = tt
IsInert-escaped (c ∷ str) attribute =
    IsInert-append attribute (escape_byte c attribute) (escaped str attribute)
      (IsInert-escape_byte c attribute) (IsInert-escaped str attribute)

-- Escaped text holds no `<` and no `>`, and with the attribute flag no double quote.
pub xmlescape-IsInert :
    (str : Bytes) (attribute : Bool) {out : Bytes}
    → xmlescape str attribute ≡ some out
    → IsInert attribute out
xmlescape-IsInert str attribute {out} h =
    subst (IsInert attribute) (returned str attribute h) (IsInert-escaped str attribute)

escaped_conflates :
    (a b : Bytes) → escaped (a ++ (b'"' ∷ b)) true ≡ escaped (a ++ codes "%22" ++ b) true
unfolding escape_byte
escaped_conflates [] b = refl
escaped_conflates (c ∷ a) b = ap (λ s. escape_byte c true ++ s) (escaped_conflates a b)

-- With the attribute flag escaping forgets: a quote and the three bytes `%22` come out alike,
-- wherever they stand.
pub xmlescape_conflates :
    (a b : Bytes) → xmlescape (a ++ (b'"' ∷ b)) true ≡ xmlescape (a ++ codes "%22" ++ b) true
xmlescape_conflates a b =
    xmlescape-eq-escaped (a ++ (b'"' ∷ b)) true
    ∙ ap (λ s. if ltb (length s + 1) (2 ^ 31) then some s else none) (escaped_conflates a b)
    ∙ sym (xmlescape-eq-escaped (a ++ codes "%22" ++ b) true)
