-- ===== src/Zone/File.antt =====
-- src/zone.rs: preprocess_zone_content, which strips comments and joins the lines of a record that
-- is in parentheses.
pub mod Rdata
pub mod Secure
pub mod Parse
pub mod Load
pub mod Safe
pub mod Built
pub mod Words
pub mod Print
pub mod Joined
pub mod Parens
use lrmdns.Prelude.{
  ℕ, ◌%◌, Bool, true, false, not, Option, none, some, List, [], ◌∷◌, ◌++◌, if◌then◌else◌, ◌==◌,
  is_empty,
}
use lrmdns.Zone.Text.{Text, lines, before, count_of, trim, contains, remove}

-- the line without its comment; a semicolon after an odd number of quotes starts none
unfoldable pub strip_comment : Text → Text
strip_comment line = elim (before 59 line) [
  | some before_semicolon ↦ if count_of 34 before_semicolon % 2 == 1 then line else before_semicolon
  | none ↦ line
]

-- `trimmed` in the loop
unfoldable pub clean : Text → Text
clean line = trim (strip_comment line)

-- The variables of the loop.
pub record Lines : Type 0 where
  pub result : List Text
  pub current_line : Text
  pub in_parens : Bool

abbrev pub start : Lines
start = record { result = []; current_line = []; in_parens = false }

-- a line with an opening parenthesis
abbrev pub open_parens : Text → Lines → Lines
open_parens trimmed s = record s {
  current_line = s.current_line ++ (trim (remove 40 trimmed) ++ 32 ∷ []);
  in_parens = true;
}

-- a line with a closing one
abbrev pub close_parens : Text → Lines → Lines
close_parens trimmed s = record {
  result = s.result ++ trim (s.current_line ++ trim (remove 41 trimmed)) ∷ [];
  current_line = [];
  in_parens = false;
}

-- any other line
abbrev pub plain_line : Text → Lines → Lines
plain_line trimmed s =
    if s.in_parens
    then record s { current_line = s.current_line ++ (trimmed ++ 32 ∷ []) }
    else (if is_empty trimmed then s else record s { result = s.result ++ trimmed ∷ [] })

-- one round of the loop
unfoldable pub add_line : Text → Lines → Lines
add_line trimmed s =
    if contains 40 trimmed
    then open_parens trimmed s
    else (if contains 41 trimmed then close_parens trimmed s else plain_line trimmed s)

unfoldable pub add_lines : List Text → Lines → Lines
add_lines [] s = s
add_lines (line ∷ rest) s = add_lines rest (add_line (clean line) s)

-- parentheses that are not closed
abbrev pub finish : Lines → List Text
finish s = if is_empty s.current_line then s.result else s.result ++ trim s.current_line ∷ []

-- preprocess_zone_content
unfoldable pub preprocess_zone_content : Text → List Text
preprocess_zone_content content = finish (add_lines (lines content) start)
