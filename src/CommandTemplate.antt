-- ===== src/CommandTemplate.antt =====
-- backend_v2/app/application/command_template.py. `sub` goes over the text from left to right; where
-- the pattern matches, the match is a token and the search goes on behind it.
pub mod Rendering
mod Examples
use Prim.Native.Char.{Char}
use Prim.Native.String.{String}
use Prim.Native.String
use Prim.Native.String.{◌++◌ as ◌<>◌}
use mathlib.Core.List.{flat_map}
use nw_edit.Prelude.{ℕ, zero, suc, ◌-◌, false, Option, none, some, List, [], ◌∷◌, ◌++◌}
use nw_edit.Dict
use nw_edit.Dict.{Dict}
use nw_edit.Text.Chars.{is_space}
use nw_edit.Text.Strip.{size, first_chars}
use nw_edit.Text.Regex.{
  Regex, literal, one, many, both, Place, start_of, is_word, is_name_start, matches,
}

-- The three parts of `_TOKEN_PATTERN`; the second is its group.
abbrev opening : Regex
opening = both (literal "{{") (many is_space)

abbrev name_pattern : Regex
name_pattern = both (one is_name_start) (many is_word)

abbrev closing : Regex
closing = both (many is_space) (literal "}}")

-- The size of what lies between two places.
abbrev span : Place → Place → ℕ
span from to = size from.behind - size to.behind

-- A match: its group, and its size.
pub record Token : Type 0 where
  pub key : String
  pub width : ℕ

tokens_at : Place → List Token
tokens_at place =
    flat_map
      (λ opened.
        flat_map
          (λ named.
            flat_map
              (λ closed.
                record {
                  key = first_chars (span opened named) opened.behind;
                  width = span place closed;
                }
                ∷ [])
              (matches false closing named))
          (matches false name_pattern opened))
      (matches false opening place)

-- What `sub` makes of a text: characters that it copies, and tokens with their whole text.
pub data Piece : Type 0 where
  copied : Char → Piece
  token : (key whole : String) → Piece

-- The pieces of a text behind its first `skipped` characters, which belong to a token.
unfoldable pub pieces : (skipped : ℕ) → String → List Piece
unfolding tokens_at
pieces skipped String.[] = []
pieces (suc skipped) (String.◌∷◌ c text) = pieces skipped text
pieces zero (String.◌∷◌ c text) = elim (tokens_at (start_of (String.◌∷◌ c text))) [
  | [] ↦ copied c ∷ pieces zero text
  | found ∷ others ↦
      token found.key (String.◌∷◌ c (first_chars (found.width - 1) text))
      ∷ pieces (found.width - 1) text
]

-- `replacer`, and a copied character.
unfoldable pub replaced : Dict String → Piece → String
replaced vars (copied c) = String.◌∷◌ c ""
replaced vars (token key whole) = elim (Dict.get vars key) [ none ↦ whole | some value ↦ value ]

unfoldable pub rendered : Dict String → List Piece → String
rendered vars [] = ""
rendered vars (piece ∷ rest) = replaced vars piece <> rendered vars rest

-- `missing.add(key)` for each token without a value.
unfoldable pub missing_of : Dict String → List Piece → List String
missing_of vars [] = []
missing_of vars (copied c ∷ rest) = missing_of vars rest
missing_of vars (token key whole ∷ rest) = elim (Dict.get vars key) [
  | none ↦ key ∷ missing_of vars rest
  | some value ↦ missing_of vars rest
]

unfoldable pub render_command : String → Dict String → String × List String
render_command template vars =
    let found = pieces zero template in (rendered vars found, missing_of vars found)

-- The texts, and the missing names of all of them.
unfoldable pub render_commands : List String → Dict String → List String × List String
render_commands [] vars = ([], [])
render_commands (command ∷ commands) vars =
    let (value, missing) = render_command command vars in
    let (values, others) = render_commands commands vars in (value ∷ values, missing ++ others)
