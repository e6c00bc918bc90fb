-- ===== src/CommandTemplate/Rendering.antt =====
-- What a rendered command looks like.
use Prim.Native.String.{String}
use Prim.Native.String.{◌++◌ as ◌<>◌}
use text.Mathlib.TextLemmas.{cons-append, nil-append}
use nw_edit.Prelude.{
  ℕ, zero, suc, ◌-◌, List, [], ◌∷◌, ◌≡◌, refl, sym, ◌∙◌, ap, arith, Option-cases, List-cases, inl,
  inr, true,
}
use nw_edit.Dict
use nw_edit.Dict.{Dict}
use nw_edit.Text.Strip.{first_chars}
use nw_edit.Text.Regex.{start_of}
use nw_edit.CommandTemplate.{
  Piece, copied, token, tokens_at, pieces, replaced, rendered, missing_of, render_command,
}

-- The characters skipped and the pieces behind them, none of which has a value, are the text.
pieces_all :
    (skipped : ℕ) (text : String)
    → first_chars skipped text <> rendered [] (pieces skipped text) ≡ text
unfolding pieces first_chars rendered replaced Dict.get
pieces_all zero String.[] = refl
pieces_all (suc skipped) String.[] = refl
pieces_all (suc skipped) (String.◌∷◌ c text) =
    rw cons-append (ap (λ t. String.◌∷◌ c t) (pieces_all skipped text))
pieces_all zero (String.◌∷◌ c text) = elim (List-cases (tokens_at (start_of (String.◌∷◌ c text)))) [
  | inl e ↦
      rw (e, pieces, nil-append, cons-append, nil-append)
        (ap (λ t. String.◌∷◌ c t) (sym (nil-append _) ∙ pieces_all zero text))
  | inr (found, (others, e)) ↦
      rw (e, pieces, nil-append, cons-append)
        (ap (λ t. String.◌∷◌ c t) (pieces_all (found.width - 1) text))
]

-- Without variables a command is rendered as it stands.
render_command-nil : (template : String) → (render_command template []).0 ≡ template
unfolding render_command first_chars
render_command-nil template = sym (nil-append _) ∙ pieces_all zero template

-- The names of the tokens of a text.
abbrev pub keys_of : List Piece → List String
keys_of [] = []
keys_of (copied c ∷ rest) = keys_of rest
keys_of (token key whole ∷ rest) = key ∷ keys_of rest

-- Every name has a value.
abbrev pub HasAll : Dict String → List String → Type 0
HasAll vars [] = Unit
HasAll vars (key ∷ keys) = (Dict.contains vars key ≡ true) × HasAll vars keys

missing_of-HasAll :
    (vars : Dict String) (found : List Piece)
    → missing_of vars found ≡ []
    → HasAll vars (keys_of found)
unfolding missing_of
missing_of-HasAll vars [] h = tt
missing_of-HasAll vars (copied c ∷ rest) h = missing_of-HasAll vars rest h
missing_of-HasAll vars (token key whole ∷ rest) h = elim (Option-cases (Dict.get vars key)) [
  | inl e ↦ absurd (ground arith)
  | inr (value, e) ↦ (rw e refl, missing_of-HasAll vars rest (rw (e, missing_of) at h))
]
