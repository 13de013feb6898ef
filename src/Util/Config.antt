-- ===== src/Util/Config.antt =====
-- ReMoLON_Util/src/Config.cpp. A string is the list of its characters' codes. The lines of the
-- file are what `std::getline` gives in turn; `none` is a file that cannot be opened.
pub mod Fields
pub mod Lines
pub mod Numbers
pub mod Ports
use re_mo_lon.Common.{
  ℕ, zero, suc, ◌+◌, ◌-◌, ◌*◌, ◌^◌, List, [], ◌∷◌, Option, none, some, Bool, true, false,
  if◌then◌else◌, not, ◌&&◌, ◌||◌, nat_beq, ltb, leb, length, take, drop,
}
use re_mo_lon.Common.Eq.{Text, text_eq}
use re_mo_lon.Common.Assoc.{find, assign}

abbrev pub Properties : Type 0
Properties = List (Text × Text)

abbrev pub is_one_of : Text → ℕ → Bool
is_one_of [] c = false
is_one_of (d ∷ delimiters) c = nat_beq d c || is_one_of delimiters c

unfoldable pub first_of : Text → Text → Option ℕ
first_of delimiters [] = none
first_of delimiters (c ∷ s) =
    let later = first_of delimiters s in
    if is_one_of delimiters c then some 0 else elim later [ none ↦ none | some i ↦ some (suc i) ]

-- s.find_first_of ( delimiters, pos )
unfoldable pub find_first_of : Text → Text → ℕ → Option ℕ
find_first_of s delimiters pos = elim (first_of delimiters (drop pos s)) [
  | none ↦ none
  | some i ↦ some (pos + i)
]

-- s.substr ( pos, count )
abbrev pub substr : Text → ℕ → ℕ → Text
substr s pos count = take count (drop pos s)

unfoldable pub remove_white_spaces : Text → Text
remove_white_spaces [] = []
remove_white_spaces (c ∷ source) =
    let rest = remove_white_spaces source in if not (nat_beq c 32) then c ∷ rest else rest

-- The body of the loop of `load`, for a line without spaces: '#' is 35 and '=' is 61.
unfoldable pub load_stripped : Text → Properties → Properties
load_stripped [] properties = properties
load_stripped (c ∷ s) properties =
    let line = c ∷ s in
    if nat_beq c 35 then properties else elim (find_first_of line (61 ∷ []) 0) [
      | none ↦ properties
      | some equal_sim ↦
          assign (substr line 0 equal_sim) (substr line (equal_sim + 1) (length line)) properties
    ]

abbrev pub load_line : Text → Properties → Properties
load_line source properties = load_stripped (remove_white_spaces source) properties

abbrev pub load_lines : List Text → Properties → Properties
load_lines [] properties = properties
load_lines (line ∷ lines) properties = load_lines lines (load_line line properties)

abbrev pub load : Option (List Text) → Properties → Properties
load none properties = properties
load (some lines) properties = load_lines lines properties

unfoldable pub get_property : Text → Text → Properties → Text
get_property key default_value properties = elim (find key properties) [
  | none ↦ default_value
  | some v ↦ v
]

-- The loop of `getPropertyList`, where `charPos` and `prevPos` are both `pos`; on fuel.
unfoldable pub split_from : ℕ → Text → Text → ℕ → List Text
split_from zero content delimiter pos = []
split_from (suc fuel) content delimiter pos = elim (find_first_of content delimiter pos) [
  | none ↦ substr content pos (length content - pos) ∷ []
  | some char_pos ↦
      substr content pos (char_pos - pos) ∷ split_from fuel content delimiter (char_pos + 1)
]

unfoldable pub get_property_list : Text → Text → Properties → List Text
get_property_list key delimiter properties = elim (find key properties) [
  | none ↦ []
  | some content ↦ split_from (length content + 1) content delimiter 0
]

-- `std::stoi` in base 10: white space, a sign, digits, and anything after them. The result has the
-- bits of an `int`.
pub data Stoi : Type 0 where
  number : ℕ → Stoi
  invalid_argument out_of_range : Stoi

abbrev pub is_space : ℕ → Bool
is_space c = nat_beq c 32 || (leb 9 c && leb c 13)

abbrev pub is_digit : ℕ → Bool
is_digit c = leb 48 c && leb c 57

abbrev pub skip_space : Text → Text
skip_space [] = []
skip_space (c ∷ s) = let rest = skip_space s in if is_space c then rest else c ∷ s

-- The value of the digits in front, from what is before them; `none` where there is no digit yet.
abbrev pub digits : Option ℕ → Text → Option ℕ
digits value [] = value
digits value (c ∷ s) =
    let read : ℕ = elim value [ none ↦ 0 | some v ↦ v ] in
    let rest = digits (some (read * 10 + (c - 48))) s in if is_digit c then rest else value

abbrev pub positive : Option ℕ → Stoi
positive none = invalid_argument
positive (some v) = if ltb v (2 ^ 31) then number v else out_of_range

abbrev pub negative : Option ℕ → Stoi
negative none = invalid_argument
negative (some v) =
    if leb v (2 ^ 31) then (if nat_beq v 0 then number 0 else number (2 ^ 32 - v)) else out_of_range

abbrev pub signed : Text → Stoi
signed [] = invalid_argument
signed (c ∷ s) =
    if nat_beq c 45
    then negative (digits none s)
    else if nat_beq c 43
    then positive (digits none s)
    else positive (digits none (c ∷ s))

unfoldable pub stoi : Text → Stoi
stoi s = signed (skip_space s)

unfoldable pub get_int_property : Text → ℕ → Properties → Stoi
get_int_property key default_value properties = elim (get_property key [] properties) [
  | [] ↦ number default_value
  | c ∷ s ↦ stoi (c ∷ s)
]
