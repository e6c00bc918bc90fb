-- ===== src/Text/Regex.antt =====
-- `re.search` and `re.match` for the patterns of the program. A pattern is run by backtracking: the
-- ways to match a prefix are listed in the order in which Python tries them. Letter case is ignored
-- on ASCII letters.
use Prim.Native.Char.{Char, code}
use Prim.Native.String.{String}
use mathlib.Core.List.{flat_map}
use nw_edit.Prelude.{
  Bool, false, not, ◌&&◌, ◌||◌, Option, none, some, List, [], ◌∷◌, ◌++◌, ◌==◌, if◌then◌else◌,
  is_empty,
}
use nw_edit.Text.Chars.{is, is_digit, is_letter, lower_char}

pub data Regex : Type 0 where
  literal : String → Regex
  one : (Char → Bool) → Regex
  many : (Char → Bool) → Regex
  both : Regex → Regex → Regex
  either : Regex → Regex → Regex
  perhaps : Regex → Regex
  word_boundary text_start text_end : Regex

-- A place in a text: the character before it and what is behind it.
pub record Place : Type 0 where
  pub before : Option Char
  pub behind : String

abbrev pub start_of : String → Place
start_of text = record { before = none; behind = text }

-- `\w` for ASCII.
unfoldable pub is_word : Char → Bool
is_word c = is_letter c || is_digit c || is 95 c

-- `[A-Za-z_]`.
unfoldable pub is_name_start : Char → Bool
is_name_start c = is_letter c || is 95 c

head_is : (Char → Bool) → String → Bool
head_is p String.[] = false
head_is p (String.◌∷◌ c text) = p c

before_is : (Char → Bool) → Option Char → Bool
before_is p none = false
before_is p (some c) = p c

after_literal : Bool → String → Option Char → String → List Place
after_literal ignore_case String.[] before text = record { before = before; behind = text } ∷ []
after_literal ignore_case (String.◌∷◌ a rest) before String.[] = []
after_literal ignore_case (String.◌∷◌ a rest) before (String.◌∷◌ c text) =
    let later = after_literal ignore_case rest (some c) text in
    let same = if ignore_case then is (code (lower_char a)) (lower_char c) else is (code a) c in
    if same then later else []

after_one : (Char → Bool) → String → List Place
after_one p String.[] = []
after_one p (String.◌∷◌ c text) = if p c then record { before = some c; behind = text } ∷ [] else []

-- Greedy: the longest first.
after_many : (Char → Bool) → Option Char → String → List Place
after_many p before String.[] = record { before = before; behind = "" } ∷ []
after_many p before (String.◌∷◌ c text) =
    let longer = after_many p (some c) text in
    let here = record { before = before; behind = String.◌∷◌ c text } ∷ [] in
    if p c then longer ++ here else here

-- The places behind the matches of a pattern at a place.
unfoldable pub matches : Bool → Regex → Place → List Place
unfolding after_literal after_one after_many head_is before_is flat_map
matches ignore_case (literal text) place = after_literal ignore_case text place.before place.behind
matches ignore_case (one p) place = after_one p place.behind
matches ignore_case (many p) place = after_many p place.before place.behind
matches ignore_case (both r s) place =
    flat_map (matches ignore_case s) (matches ignore_case r place)
matches ignore_case (either r s) place = matches ignore_case r place ++ matches ignore_case s place
matches ignore_case (perhaps r) place = matches ignore_case r place ++ place ∷ []
matches ignore_case word_boundary place =
    let left = before_is is_word place.before in
    let right = head_is is_word place.behind in
    if (left && not right) || (right && not left) then place ∷ [] else []
matches ignore_case text_start place = elim place.before [ none ↦ place ∷ [] | some c ↦ [] ]
matches ignore_case text_end place =
    if (place.behind == "") || (place.behind == "\n") then place ∷ [] else []

-- `pattern.match(text)` succeeds.
unfoldable pub is_match : Bool → Regex → String → Bool
is_match ignore_case pattern text = not (is_empty (matches ignore_case pattern (start_of text)))

search_from : Bool → Regex → Option Char → String → Bool
search_from ignore_case pattern before String.[] =
    not (is_empty (matches ignore_case pattern (record { before = before; behind = "" })))
search_from ignore_case pattern before (String.◌∷◌ c text) =
    let later = search_from ignore_case pattern (some c) text in
    let here : Place = record { before = before; behind = String.◌∷◌ c text } in
    not (is_empty (matches ignore_case pattern here)) || later

-- `re.search(pattern, text)` finds a match.
unfoldable pub search : Bool → Regex → String → Bool
unfolding search_from
search ignore_case pattern text = search_from ignore_case pattern none text
