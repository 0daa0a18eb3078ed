-- ===== src/Config/Path.antt =====
-- The checks of internal/config/config.go on the metrics path, with `path.Clean` (Go's path package), which
-- works on the path's segments here, and the functions of `strings` that they call.
pub mod Segments
pub mod Laws
use tdarr_exporter.Prelude.{
  ℕ, Bool, true, false, not, ◌&&◌, ◌||◌, List, [], ◌∷◌, ◌++◌, Option, none, some, ◌==◌,
  if◌then◌else◌, elem, ℕ_eq,
}
use tdarr_exporter.GoText.{Text, Text_eq, lit, is_empty, is_space}
use tdarr_exporter.Config.Results.{
  PathError, no_leading_slash, has_brace, has_whitespace, not_clean, is_reserved,
}

abbrev cons_first : ℕ → List Text → List Text
cons_first c [] = (c ∷ []) ∷ []
cons_first c (s ∷ segments) = (c ∷ s) ∷ segments

-- The segments of a path, between its slashes.
unfoldable pub split : Text → List Text
split [] = [] ∷ []
split (c ∷ s) = if c == b'/' then [] ∷ split s else cons_first c (split s)

unfoldable pub join : List Text → Text
join [] = []
join (s ∷ []) = s
join (s ∷ t ∷ segments) = s ++ b'/' ∷ join (t ∷ segments)

-- A `..` takes the last segment off; in front of the first it is kept, unless the path is rooted.
abbrev pub pop : Bool → List Text → List Text
pop true [] = []
pop false [] = lit ".." ∷ []
pop true (top ∷ out) = out
pop false (top ∷ out) = if top == lit ".." then lit ".." ∷ top ∷ out else out

abbrev pub push : Bool → List Text → Text → List Text
push rooted out s =
    if is_empty s
    then out
    else if s == lit "."
    then out
    else if s == lit ".."
    then pop rooted out
    else s ∷ out

abbrev pub reverse_onto {ℓ} : {A : Type ℓ} → List A → List A → List A
reverse_onto [] ys = ys
reverse_onto (x ∷ xs) ys = reverse_onto xs (x ∷ ys)

-- The segments that stay, behind those of `out`, which stand in reverse.
unfoldable pub clean_segments : Bool → List Text → List Text → List Text
clean_segments rooted out [] = reverse_onto out []
clean_segments rooted out (s ∷ segments) = clean_segments rooted (push rooted out s) segments

abbrev or_dot : Text → Text
or_dot [] = lit "."
or_dot (c ∷ s) = c ∷ s

-- `path.Clean`.
unfoldable pub clean : Text → Text
unfolding split join clean_segments
clean [] = lit "."
clean (c ∷ s) =
    if c == b'/'
    then b'/' ∷ join (clean_segments true [] (split (c ∷ s)))
    else or_dot (join (clean_segments false [] (split (c ∷ s))))

abbrev pub any_rune : (ℕ → Bool) → Text → Bool
any_rune test [] = false
any_rune test (c ∷ s) = test c || any_rune test s

abbrev pub is_brace : ℕ → Bool
is_brace c = c == b'{' || c == b'}'

-- strings.HasPrefix(p, "/")
abbrev pub is_rooted : Text → Bool
is_rooted [] = false
is_rooted (c ∷ s) = c == b'/'

unfoldable pub check_prometheus_path : Text → Option PathError
unfolding clean
check_prometheus_path p =
    if not (is_rooted p)
    then some no_leading_slash
    else if any_rune is_brace p
    then some has_brace
    else if any_rune is_space p
    then some has_whitespace
    else if not (p == clean p)
    then some not_clean
    else if p == lit "/" || p == lit "/healthz"
    then some is_reserved
    else none
