-- ===== src/DeviceImport/Service/Order.antt =====
-- The order in which the validations finish does not matter to the results.
use mathlib.Core.List.{Permᴰ}
use nw_edit.Prelude.{
  ℕ, zero, suc, ◌+◌, String, Bool, Option, none, some, List, [], ◌∷◌, length, ◌≡◌, ◌≢◌, refl, ap,
  ◌∙◌, inl, inr, arith, Option-cases, ℕ_discrete,
}
use nw_edit.Domain.Models.{DeviceProfile}
use nw_edit.DeviceImport.Row.{Entry}
use nw_edit.DeviceImport.Validation.{
  get_elem?, Checked, Results, put_result, place, sorted_results, validated, Loop, first_loop,
  complete_all,
}

place_idem : (i : ℕ) (c d : Checked) (l : Results) → place i c (place i d l) ≡ place i c l
unfolding place
place_idem i c d [] = ground arith
place_idem i c d ((j, e) ∷ l) = ground (arith, place_idem i c d l)

place_comm :
    (i j : ℕ) (c d : Checked) (l : Results)
    → i ≢ j
    → place i c (place j d l) ≡ place j d (place i c l)
unfolding place
place_comm i j c d [] h = ground arith
place_comm i j c d ((k, e) ∷ l) h = ground (arith, place_comm i j c d l h)

-- Sorting what a write leaves is an insertion by the index.
sorted_results-put_result :
    (results : Results) (i : ℕ) (c : Checked)
    → sorted_results (put_result results i c) ≡ place i c (sorted_results results)
unfolding sorted_results put_result
sorted_results-put_result [] i c = refl
sorted_results-put_result ((j, d) ∷ results) i c =
    let more = sorted_results-put_result results i c in
    let swapped = place_comm i j c d (sorted_results results) in
    elim (ℕ_discrete i j) [
      | yes same ↦ rw (same) (ground (arith, place_idem j c d (sorted_results results)))
      | no other ↦ ground (arith, more, swapped other)
    ]

-- The numbers from k on, n of them.
abbrev pub range : ℕ → ℕ → List ℕ
range k zero = []
range k (suc n) = k ∷ range (suc k) n

-- The entries with their answers, numbered from k on.
abbrev pub numbered : (Entry → Checked) → ℕ → List Entry → Results
numbered check k [] = []
numbered check k (entry ∷ entries) = (k, check entry) ∷ numbered check (suc k) entries

module _ (validate : DeviceProfile → Bool × Option String) (entries : List Entry) where
  place_some : Option Entry → ℕ → Results → Results
  place_some none i l = l
  place_some (some entry) i l = place i (validated validate entry) l

  abbrev place_entry : ℕ → Results → Results
  place_entry i l = place_some (get_elem? entries i) i l

  place_some_comm :
      (i j : ℕ) (a b : Option Entry) (l : Results)
      → i ≢ j
      → place_some a i (place_some b j l) ≡ place_some b j (place_some a i l)
  unfolding place_some
  place_some_comm i j none b l h = refl
  place_some_comm i j (some entry) none l h = refl
  place_some_comm i j (some entry) (some other) l h = place_comm i j _ _ l h

  place_entry_comm :
      (i j : ℕ) (l : Results) → place_entry i (place_entry j l) ≡ place_entry j (place_entry i l)
  place_entry_comm i j l = elim (ℕ_discrete i j) [
    | yes same ↦ rw same refl
    | no other ↦ place_some_comm i j _ _ l other
  ]

  place_all : List ℕ → Results → Results
  place_all [] l = l
  place_all (i ∷ order) l = place_all order (place_entry i l)

  sorted_results-complete_all :
      (order : List ℕ) (loop : Loop)
      → sorted_results (complete_all validate entries order loop).results
        ≡ place_all order (sorted_results loop.results)
  unfolding complete_all place_all place_some
  sorted_results-complete_all [] loop = refl
  sorted_results-complete_all (i ∷ order) loop = elim (Option-cases (get_elem? entries i)) [
    | inl e ↦ rw (e, complete_all, place_all, place_some) (sorted_results-complete_all order loop)
    | inr (entry, e) ↦
        rw (e, complete_all, place_all, place_some)
          (sorted_results-complete_all order _
            ∙ ap (place_all order) (sorted_results-put_result loop.results i _))
  ]

  place_all-Permᴰ : {xs ys : List ℕ} → Permᴰ xs ys → (l : Results) → place_all xs l ≡ place_all ys l
  unfolding place_all
  place_all-Permᴰ Permᴰ.nil l = refl
  place_all-Permᴰ (Permᴰ.cons e p) l = rw e (place_all-Permᴰ p _)
  place_all-Permᴰ (Permᴰ.swap {l = rest} e e2) l =
      rw (e, e2) (ap (place_all rest) (place_entry_comm _ _ l))
  place_all-Permᴰ (Permᴰ.trans p q) l = place_all-Permᴰ p l ∙ place_all-Permᴰ q l

  -- The first one may as well be put in its place last.
  place_all_late :
      (order : List ℕ) (i : ℕ) (l : Results)
      → place_all order (place_entry i l) ≡ place_entry i (place_all order l)
  unfolding place_all
  place_all_late [] i l = refl
  place_all_late (j ∷ order) i l =
      ap (place_all order) (place_entry_comm j i l) ∙ place_all_late order i (place_entry j l)

  place-numbered :
      (check : Entry → Checked) (k : ℕ) (c : Checked) (rest : List Entry)
      → place k c (numbered check (suc k) rest) ≡ (k, c) ∷ numbered check (suc k) rest
  unfolding place
  place-numbered check k c [] = refl
  place-numbered check k c (entry ∷ rest) = ground arith

  place_all-range :
      (rest : List Entry) (k : ℕ)
      → ((i : ℕ) → get_elem? entries (k + i) ≡ get_elem? rest i)
      → place_all (range k (length rest)) [] ≡ numbered (validated validate) k rest
  unfolding place_all place_some get_elem?
  place_all-range [] k h = refl
  place_all-range (entry ∷ rest) k h =
      let first : get_elem? entries k ≡ some entry = ap (get_elem? entries) (omega arith) ∙ h 0 in
      let later =
        place_all-range rest (suc k) (λ i. ap (get_elem? entries) (omega arith) ∙ h (suc i)) in
      place_all_late (range (suc k) (length rest)) k []
      ∙ rw (later, first) (place-numbered _ k _ rest)

  -- In whichever order the validations finish, the sorted results are the entries in their order,
  -- each with its answer.
  pub sorted_results_lem :
      (order : List ℕ)
      → Permᴰ order (range 0 (length entries))
      → sorted_results (complete_all validate entries order (first_loop entries)).results
        ≡ numbered (validated validate) 0 entries
  unfolding sorted_results
  sorted_results_lem order p =
      sorted_results-complete_all order (first_loop entries)
      ∙ place_all-Permᴰ p []
      ∙ place_all-range entries 0 (λ i. ap (get_elem? entries) (omega arith))
