-- ===== src/Util/Config/Lines.antt =====
-- A file of properties, a line for each.
use re_mo_lon.Common.{
  ℕ, ◌+◌, ◌≡◌, refl, sym, ap, ◌∙◌, List, [], ◌∷◌, ◌++◌, some, Bool, false, arith, length, take,
  drop, take-append, drop-append, length-append, nat_beq, nat_beq_iff, append_assoc, take-long,
}
use re_mo_lon.Common.Eq.{Text, text_eq}
use re_mo_lon.Common.Assoc.{assign, Distinct, assign_all, assign_all-append}
use re_mo_lon.Util.Config.{
  Properties, first_of, find_first_of, remove_white_spaces, load_line, load_stripped, load_lines,
  load,
}

-- No space, and no '='.
abbrev pub HasNo : ℕ → Text → Type 0
HasNo k [] = Unit {0}
HasNo k (c ∷ s) = (nat_beq c k ≡ false) × HasNo k s

abbrev pub is_comment : Text → Bool
is_comment [] = false
is_comment (c ∷ s) = nat_beq c 35

first_of-append :
    (key v : Text) → HasNo 61 key → first_of (61 ∷ []) (key ++ (61 ∷ v)) ≡ some (length key)
unfolding first_of
first_of-append [] v h = refl
first_of-append (c ∷ key) v (d, h) =
    ground (arith, first_of-append key v h, nat_beq_iff c 61, nat_beq_iff 61 c)

first_of-found :
    (key v : Text) → HasNo 61 key → find_first_of (key ++ (61 ∷ v)) (61 ∷ []) 0 ≡ some (length key)
unfolding find_first_of
first_of-found key v h = rw (find_first_of, first_of-append key v h) (ap some (omega arith))

parts :
    (key v : Text)
    → (take (length key) (key ++ (61 ∷ v)) ≡ key)
      × (take (length (key ++ (61 ∷ v))) (drop (length key + 1) (key ++ (61 ∷ v))) ≡ v)
parts key v =
    let back : drop (length key + 1) (key ++ (61 ∷ v)) ≡ v =
      ap (λ t. drop (length key + 1) t) (sym (append_assoc key (61 ∷ []) v))
      ∙ drop-append (length key + 1) (key ++ (61 ∷ [])) v (sym (length-append key (61 ∷ []))) in
    (
      take-append (length key) key (61 ∷ v) refl,
      ap (take (length (key ++ (61 ∷ v)))) back
          ∙ take-long (length (key ++ (61 ∷ v))) v (omega (arith, length-append key (61 ∷ v))),
    )

load_stripped_lem :
    (key v : Text) (properties : Properties)
    → HasNo 61 key
    → is_comment key ≡ false
    → load_stripped (key ++ (61 ∷ v)) properties ≡ assign key v properties
unfolding load_stripped
load_stripped_lem [] v properties h n = rw (load_stripped, first_of-found [] v tt, (parts [] v).1)
load_stripped_lem (c ∷ key) v properties h n =
    let (front, back) = parts (c ∷ key) v in
    rw (load_stripped, n, first_of-found (c ∷ key) v h, front, back)

-- A line that is a key without '=' that does not start with '#', then '=', then a value, once its
-- spaces are taken out, sets that property.
pub load_line_lem :
    (source key v : Text) (properties : Properties)
    → remove_white_spaces source ≡ key ++ (61 ∷ v)
    → HasNo 61 key
    → is_comment key ≡ false
    → load_line source properties ≡ assign key v properties
load_line_lem source key v properties e h n =
    ap (λ t. load_stripped t properties) e ∙ load_stripped_lem key v properties h n

-- What can stand in such a file: a key without white space or '=' that is no comment, and a value
-- without white space.
abbrev pub IsLine : Text × Text → Type 0
IsLine (key, v) = HasNo 32 key × HasNo 61 key × (is_comment key ≡ false) × HasNo 32 v

abbrev pub AllLines : Properties → Type 0
AllLines [] = Unit {0}
AllLines (p ∷ properties) = IsLine p × AllLines properties

abbrev pub print : Properties → List Text
print [] = []
print ((key, v) ∷ properties) = (key ++ (61 ∷ v)) ∷ print properties

remove_white_spaces-HasNo : (s : Text) → HasNo 32 s → remove_white_spaces s ≡ s
unfolding remove_white_spaces
remove_white_spaces-HasNo [] h = refl
remove_white_spaces-HasNo (c ∷ s) (d, h) = rw (d, remove_white_spaces-HasNo s h)

HasNo-append : (k : ℕ) (s t : Text) → HasNo k s → HasNo k t → HasNo k (s ++ t)
HasNo-append k [] t h g = g
HasNo-append k (c ∷ s) t (d, h) g = (d, HasNo-append k s t h g)

load_lines-print :
    (l properties : Properties)
    → AllLines l
    → load_lines (print l) properties ≡ assign_all l properties
load_lines-print [] properties h = refl
load_lines-print ((key, v) ∷ l) properties ((hk, he, hc, hv), h) =
    let clean =
      remove_white_spaces-HasNo (key ++ (61 ∷ v)) (HasNo-append 32 key (61 ∷ v) hk (refl, hv)) in
    ap (load_lines (print l)) (load_line_lem (key ++ (61 ∷ v)) key v properties clean he hc)
    ∙ load_lines-print l (assign key v properties) h

-- A file that has a line for each of some properties with different keys, where keys have no space
-- and no '=' and do not start with '#', and values have no space, is loaded as those properties.
pub load-print : (l : Properties) → AllLines l → Distinct l → load (some (print l)) [] ≡ l
load-print l h d = load_lines-print l [] h ∙ assign_all-append l [] d
