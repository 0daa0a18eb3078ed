-- ===== src/Handlers/Pages/Laws.antt =====
-- The link of the landing page (internal/handlers/index.go) as a browser reads it.
use tdarr_exporter.Prelude.{
  ℕ, ◌≡◌, refl, ap, ◌∙◌, true, false, [], ◌∷◌, ◌++◌, Option, none, some, arith, ◌==◌, if◌then◌else◌,
  ℕ_eq, list_eq, drop, length,
}
use tdarr_exporter.GoText.{Text, lit, Text_eq}
use mathlib.Core.List.{append_assoc}
use tdarr_exporter.Handlers.Pages.{escape_rune, escape_string, index_body}

-- Where a reader of an attribute stands: on plain characters, or behind `&` in a character reference,
-- with the name read so far.
pub data Reading : Type 0 where
  plain : Reading
  in_reference : Text → Reading

-- The character references of the five characters that HTML reserves.
abbrev referenced : Text → Option ℕ
referenced name =
    if name == lit "amp"
    then some b'&'
    else if name == lit "lt"
    then some b'<'
    else if name == lit "gt"
    then some b'>'
    else if name == lit "#34"
    then some 0x22
    else if name == lit "#39"
    then some 0x27
    else none

abbrev cons_value : ℕ → Option (Text × Text) → Option (Text × Text)
cons_value c none = none
cons_value c (some (value, rest)) = some (c ∷ value, rest)

abbrev cons_referenced : Option ℕ → Option (Text × Text) → Option (Text × Text)
cons_referenced none read = none
cons_referenced (some c) read = cons_value c read

-- The value of an attribute in single quotes, read from behind the opening quote: the value, and the
-- text behind the closing quote.
unfoldable pub read_attribute : Reading → Text → Option (Text × Text)
read_attribute _ [] = none
read_attribute plain (c ∷ s) = elim (c == 0x27) [
  | true ↦ some ([], s)
  | false ↦ elim (c == b'&') [
    | true ↦ read_attribute (in_reference []) s
    | false ↦ cons_value c (read_attribute plain s)
  ]
]
read_attribute (in_reference name) (c ∷ s) = elim (c == b';') [
  | true ↦ cons_referenced (referenced name) (read_attribute plain s)
  | false ↦ read_attribute (in_reference (name ++ c ∷ [])) s
]

-- The five references, and any other character but the two that a reader stops at.
read_attribute_reads :
    (s : Text)
    → let read = read_attribute plain s in
      (read_attribute plain (lit "&amp;" ++ s) ≡ cons_value b'&' read)
      × (read_attribute plain (lit "&#39;" ++ s) ≡ cons_value 0x27 read)
      × (read_attribute plain (lit "&lt;" ++ s) ≡ cons_value b'<' read)
      × (read_attribute plain (lit "&gt;" ++ s) ≡ cons_value b'>' read)
      × (read_attribute plain (lit "&#34;" ++ s) ≡ cons_value 0x22 read)
unfolding read_attribute list_eq
read_attribute_reads s = (refl, refl, refl, refl, refl)

read_attribute_plain :
    (c : ℕ) (s : Text)
    → (c == 0x27) ≡ false
    → (c == b'&') ≡ false
    → read_attribute plain (c ∷ s) ≡ cons_value c (read_attribute plain s)
unfolding read_attribute
read_attribute_plain c s h k = ground arith

read_attribute-escape_rune :
    (c : ℕ) (s : Text)
    → read_attribute plain (escape_rune c ++ s) ≡ cons_value c (read_attribute plain s)
unfolding escape_rune
read_attribute-escape_rune c s = ground (arith, read_attribute_reads s, read_attribute_plain c s)

read_attribute-escape_string :
    (s rest : Text) → read_attribute plain (escape_string s ++ 0x27 ∷ rest) ≡ some (s, rest)
unfolding escape_string read_attribute
read_attribute-escape_string [] rest = refl
read_attribute-escape_string (c ∷ s) rest =
    ap (read_attribute plain) (append_assoc (escape_rune c) (escape_string s) (0x27 ∷ rest))
    ∙ read_attribute-escape_rune c (escape_string s ++ 0x27 ∷ rest)
    ∙ ap (cons_value c) (read_attribute-escape_string s rest)

-- The landing page leads to the metrics path, whatever characters the path has: behind the opening quote of
-- the page's link, a reader of single-quoted attributes, which stops at the first quote and resolves
-- character references, reads the path that was configured and stops in front of the rest of the page.
pub read_attribute-index_body :
    (metrics_path : Text)
    → let opening = lit "<h1>tdarr-exporter</h1><p><a href='" in
      (index_body metrics_path ≡ opening ++ drop (length opening) (index_body metrics_path))
      × (read_attribute plain (drop (length opening) (index_body metrics_path))
          ≡ some (metrics_path, lit ">metrics</a></p>"))
unfolding index_body
read_attribute-index_body metrics_path =
    (refl, read_attribute-escape_string metrics_path (lit ">metrics</a></p>"))
