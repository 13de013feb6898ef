-- ===== src/Util/Config/Fields.antt =====
-- The fields of a list property: the loop over positions against a definition by recursion.
use re_mo_lon.Common.{
  ℕ, zero, suc, ◌+◌, ◌-◌, ◌≤◌, ◌<◌, ◌≡◌, refl, sym, ap, ◌∙◌, ◌⊎◌, inl, inr, List, [], ◌∷◌, ◌++◌,
  none, some, true, false, if◌then◌else◌, arith, length, take, drop, length-drop, drop-drop,
  Option-cases, Bool-cases, take-all,
}
use re_mo_lon.Common.Eq.{Text, text_eq}
use re_mo_lon.Common.Assoc.{find}
use re_mo_lon.Util.Config.{
  Properties, is_one_of, first_of, find_first_of, split_from, get_property_list,
}

-- A character in front of the first field.
abbrev pub in_front : ℕ → List Text → List Text
in_front c [] = (c ∷ []) ∷ []
in_front c (field ∷ fields) = (c ∷ field) ∷ fields

-- The fields of a text: there is one more than there are delimiters.
unfoldable pub fields_of : Text → Text → List Text
fields_of delimiters [] = [] ∷ []
fields_of delimiters (c ∷ s) =
    let rest = fields_of delimiters s in
    if is_one_of delimiters c then [] ∷ rest else in_front c rest

-- The first delimiter ends the first field.
pub first_of-fields :
    (delimiters s : Text)
    → ((first_of delimiters s ≡ none) × (fields_of delimiters s ≡ s ∷ []))
      ⊎ ((i : ℕ) × (first_of delimiters s ≡ some i)
          × (i < length s)
          × (fields_of delimiters s ≡ take i s ∷ fields_of delimiters (drop (suc i) s)))
unfolding first_of fields_of
first_of-fields delimiters [] = inl (refl, refl)
first_of-fields delimiters (c ∷ s) = elim (Bool-cases (is_one_of delimiters c)) [
  | inl d ↦ inr (0, rw d, omega arith, rw d)
  | inr d ↦ elim (first_of-fields delimiters s) [
    | inl (e, f) ↦ inl (rw (d, e), rw (d, f))
    | inr (i, e, lt, f) ↦ inr (suc i, rw (d, e), omega arith, rw (d, f))
  ]
]

-- The loop from `pos`, with fuel for the rest of the text, gives the fields of the rest.
split_from_lem :
    (fuel : ℕ) (content delimiters : Text) (pos : ℕ)
    → pos ≤ length content
    → length content < fuel + pos
    → split_from fuel content delimiters pos ≡ fields_of delimiters (drop pos content)
unfolding split_from find_first_of
split_from_lem zero content delimiters pos h enough = absurd (omega arith)
split_from_lem (suc fuel) content delimiters pos h enough =
    let rest = drop pos content in
    let size : length rest ≡ length content - pos = length-drop pos content in
    elim (first_of-fields delimiters rest) [
      | inl (e, f) ↦
          let all : take (length content - pos) rest ≡ rest =
            ap (λ k. take k rest) (sym size) ∙ take-all rest in
          rw (split_from, find_first_of, e) (ap (λ t. t ∷ []) all ∙ sym f)
      | inr (i, e, lt, f) ↦
          let later =
            split_from_lem fuel content delimiters (pos + i + 1) (omega (arith, size))
              (omega (arith, size)) in
          let there : drop (suc i) rest ≡ drop (pos + i + 1) content =
            drop-drop (suc i) pos content ∙ ap (λ k. drop k content) (omega arith) in
          let width : pos + i - pos ≡ i = omega arith in
          rw (split_from, find_first_of, e) (rw (width, later, f, there))
    ]

-- The loop of getPropertyList ends, and gives the fields of the property's text, which are defined
-- by recursion on the text; without the property it gives nothing.
pub get_property_list_lem :
    (key delimiters : Text) (properties : Properties)
    → get_property_list key delimiters properties ≡ elim (find key properties) as (λ _. List Text) [
      | none ↦ []
      | some content ↦ fields_of delimiters content
    ]
unfolding get_property_list
get_property_list_lem key delimiters properties = elim (Option-cases (find key properties)) [
  | inl e ↦ rw (get_property_list, e)
  | inr (content, e) ↦ rw (
    get_property_list,
    e,
    split_from_lem (length content + 1) content delimiters 0 (omega arith) (omega arith),
  )
]

-- The fields put together with a delimiter after each but the last.
abbrev pub join : ℕ → List Text → Text
join c [] = []
join c (field ∷ []) = field
join c (field ∷ next ∷ fields) = field ++ (c ∷ join c (next ∷ fields))

-- No delimiter in a text.
abbrev pub IsField : Text → Text → Type 0
IsField delimiters [] = Unit {0}
IsField delimiters (c ∷ s) = (is_one_of delimiters c ≡ false) × IsField delimiters s

abbrev pub AllFields : Text → List Text → Type 0
AllFields delimiters [] = Unit {0}
AllFields delimiters (s ∷ fields) = IsField delimiters s × AllFields delimiters fields

fields_of-last :
    (delimiters field : Text) → IsField delimiters field → fields_of delimiters field ≡ field ∷ []
unfolding fields_of
fields_of-last delimiters [] h = refl
fields_of-last delimiters (c ∷ field) (d, h) = rw (d, fields_of-last delimiters field h)

fields_of-append :
    (delimiters : Text) (c : ℕ) (field rest : Text)
    → IsField delimiters field
    → is_one_of delimiters c ≡ true
    → fields_of delimiters (field ++ (c ∷ rest)) ≡ field ∷ fields_of delimiters rest
unfolding fields_of
fields_of-append delimiters c [] rest h d = rw d
fields_of-append delimiters c (k ∷ field) rest (e, h) d =
    rw (e, fields_of-append delimiters c field rest h d)

-- So fields without delimiters come back from the text that joins them.
pub fields_of-join :
    (delimiters : Text) (c : ℕ) (field : Text) (fields : List Text)
    → is_one_of delimiters c ≡ true
    → AllFields delimiters (field ∷ fields)
    → fields_of delimiters (join c (field ∷ fields)) ≡ field ∷ fields
fields_of-join delimiters c field [] d (h, _) = fields_of-last delimiters field h
fields_of-join delimiters c field (next ∷ fields) d (h, hs) =
    fields_of-append delimiters c field (join c (next ∷ fields)) h d
    ∙ ap (λ t. field ∷ t) (fields_of-join delimiters c next fields d hs)
