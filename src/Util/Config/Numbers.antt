-- ===== src/Util/Config/Numbers.antt =====
-- Numbers in a property file: what `std::to_string` writes, `std::stoi` reads.
use re_mo_lon.Common.{
  ℕ, ◌+◌, ◌-◌, ◌*◌, ◌^◌, ◌<◌, ◌≡◌, refl, sym, subst, ◌∙◌, ap, [], ◌∷◌, some, arith,
}
use re_mo_lon.Common.Eq.{Text}
use re_mo_lon.Common.Decimal.{to_string, to_string_lem, AllDigits, value}
use re_mo_lon.Util.Config.{number, stoi, digits}
use re_mo_lon.Util.Config.Fields.{IsField}

digits-AllDigits : (v : ℕ) (s : Text) → AllDigits s → digits (some v) s ≡ some (value v s)
digits-AllDigits v [] h = refl
digits-AllDigits v (c ∷ s) (low, high, h) = ground (arith, digits-AllDigits (v * 10 + (c - 48)) s h)

-- The number comes back, where an `int` holds it.
pub stoi-to_string : (n : ℕ) → n < 2 ^ 31 → stoi (to_string n) ≡ number n
unfolding stoi
stoi-to_string n small =
    let (c, s, e, (low, high, h), v) = to_string_lem n in
    let later = digits-AllDigits (0 * 10 + (c - 48)) s h in
    ap stoi e ∙ ground (arith, later, v, small)

-- No comma in it.
IsField-digits : (s : Text) → AllDigits s → IsField (44 ∷ []) s
IsField-digits [] h = tt
IsField-digits (c ∷ s) (low, high, h) = (ground arith, IsField-digits s h)

pub to_string-IsField : (n : ℕ) → IsField (44 ∷ []) (to_string n)
to_string-IsField n =
    let (c, s, e, h, v) = to_string_lem n in
    subst (IsField (44 ∷ [])) (sym e) (IsField-digits (c ∷ s) h)
