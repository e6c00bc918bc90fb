-- ===== src/Text/Lines.antt =====
-- `splitlines`.
use Prim.Native.String.{String}
use Prim.Native.String.{◌++◌ as ◌<>◌}
use text.Mathlib.Text.{starts_with}
use text.Mathlib.TextLemmas.{cons-append, append_assoc, nil-append, append-nil}
use nw_edit.Prelude.{◌&&◌, List, [], ◌∷◌, map, if◌then◌else◌, ◌≡◌, refl, arith}
use nw_edit.Text.Chars.{is, is_line_end}

-- A character before the first line.
onto : String → List (String × String) → List (String × String)
onto text [] = (text, "") ∷ []
onto text ((line, ending) ∷ lines) = (text <> line, ending) ∷ lines

-- A carriage return before a line feed, which is the ending of the first line.
return_onto : String → List (String × String) → List (String × String)
return_onto text [] = ("", text) ∷ []
return_onto text ((line, ending) ∷ lines) = ("", text <> (line <> ending)) ∷ lines

-- The lines of a text, each with its ending.
unfoldable pub ended_lines : String → List (String × String)
unfolding onto return_onto
ended_lines String.[] = []
ended_lines (String.◌∷◌ c text) =
    let rest = ended_lines text in
    let one = String.◌∷◌ c "" in
    if is 13 c && starts_with text "\n"
    then return_onto one rest
    else if is_line_end c
    then ("", one) ∷ rest
    else onto one rest

abbrev pub splitlines : String → List String
splitlines text = map (λ line. line.0) (ended_lines text)

-- `splitlines(keepends=True)`.
abbrev pub splitlines_keep : String → List String
splitlines_keep text = map (λ line. line.0 <> line.1) (ended_lines text)

-- `"".join(parts)`.
unfoldable pub concat_texts : List String → String
concat_texts [] = ""
concat_texts (part ∷ parts) = part <> concat_texts parts

keep : List (String × String) → String
keep lines = concat_texts (map (λ line. line.0 <> line.1) lines)

keep-onto :
    (text : String) (lines : List (String × String)) → keep (onto text lines) ≡ text <> keep lines
unfolding keep onto concat_texts
keep-onto text [] = simp (append-nil)
keep-onto text ((line, ending) ∷ lines) = simp (append_assoc)

keep-return_onto :
    (text : String) (lines : List (String × String))
    → keep (return_onto text lines) ≡ text <> keep lines
unfolding keep return_onto concat_texts
keep-return_onto text [] = simp (nil-append)
keep-return_onto text ((line, ending) ∷ lines) = simp (nil-append, append_assoc)

-- The lines with their endings are the whole text.
pub splitlines_keep_all : (text : String) → concat_texts (splitlines_keep text) ≡ text
unfolding concat_texts ended_lines keep
splitlines_keep_all String.[] = refl
splitlines_keep_all (String.◌∷◌ c text) =
    let rest = ended_lines text in
    let one = String.◌∷◌ c "" in
    ground (
      arith,
      splitlines_keep_all text,
      keep-onto one rest,
      keep-return_onto one rest,
      cons-append c "" text,
      nil-append text,
      nil-append one,
    )
