-- ===== src/Text/Split.antt =====
-- `split` at one character, and `join`.
use Prim.Native.Char.{Char, code}
use Prim.Native.String.{String}
use Prim.Native.String.{◌++◌ as ◌<>◌}
use text.Mathlib.TextLemmas.{cons-append, nil-append}
use text.Mathlib.TextEquality.{Char-path}
use nw_edit.Prelude.{
  true, List, [], ◌∷◌, if◌then◌else◌, ◌≡◌, refl, sym, ◌∙◌, arith, Bool-cases, inl, inr, ap, join,
}
use nw_edit.Text.Chars.{is}

into_first : Char → List String → List String
into_first c [] = String.◌∷◌ c "" ∷ []
into_first c (part ∷ parts) = String.◌∷◌ c part ∷ parts

unfoldable pub split : Char → String → List String
unfolding into_first
split separator String.[] = "" ∷ []
split separator (String.◌∷◌ c text) =
    let rest = split separator text in
    if is (code separator) c then "" ∷ rest else into_first c rest

into_first-cons :
    (separator : String) (c : Char) (part : String) (parts : List String)
    → join separator (into_first c (part ∷ parts)) ≡ String.◌∷◌ c (join separator (part ∷ parts))
unfolding join into_first
into_first-cons separator c part [] = refl
into_first-cons separator c part (other ∷ parts) =
    cons-append c part (separator <> join separator (other ∷ parts))

-- There is always a first part.
split_parts :
    (separator : Char) (text : String)
    → (part : String) × ((parts : List String) × (split separator text ≡ part ∷ parts))
unfolding split
split_parts separator String.[] = ("", ([], refl))
split_parts separator (String.◌∷◌ c text) =
    let (part, (parts, e)) = split_parts separator text in
    elim (Bool-cases (is (code separator) c)) [
      | inl same ↦ ("", (split separator text, rw same refl))
      | inr other ↦ (String.◌∷◌ c part, (parts, rw (other, e) refl))
    ]

is_code : (c d : Char) → is (code c) d ≡ true → c ≡ d
is_code c d h = Char-path c d (ground arith)

-- Joining the parts of a split gives the text back, for every text.
pub join-split :
    (separator : Char) (text : String)
    → join (String.◌∷◌ separator "") (split separator text) ≡ text
unfolding join split
join-split separator String.[] = refl
join-split separator (String.◌∷◌ c text) =
    let (part, (parts, e)) = split_parts separator text in
    let glue = String.◌∷◌ separator "" in
    let again : join glue (part ∷ parts) ≡ text =
      ap (join glue) (sym e) ∙ join-split separator text in
    elim (Bool-cases (is (code separator) c)) [
      | inl same ↦
          rw (same, e)
            (rw (again, nil-append, cons-append, nil-append)
              (ap (λ x. String.◌∷◌ x text) (is_code separator c same)))
      | inr other ↦
          rw (other, e)
            (into_first-cons (String.◌∷◌ separator "") c part parts
              ∙ ap (λ x. String.◌∷◌ c x) again)
    ]
