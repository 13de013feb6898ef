-- ===== src/Common/Decimal.antt =====
-- Numbers written in base 10, as `std::to_string` does.
use re_mo_lon.Common.{
  ℕ, zero, suc, ◌+◌, ◌-◌, ◌*◌, ◌/◌, ◌%◌, ◌<◌, ◌≤◌, ◌≡◌, refl, sym, subst, ◌∙◌, ap, [], ◌∷◌, ◌++◌,
  ltb, inl, inr, if◌then◌else◌, arith, Bool-cases, ltb→lt, ltb→le,
}
use re_mo_lon.Common.Eq.{Text}

-- The digits of a number, on fuel.
unfoldable pub digits : ℕ → ℕ → Text
digits zero n = []
digits (suc fuel) n =
    let higher = digits fuel (n / 10) in
    if ltb n 10 then (48 + n) ∷ [] else higher ++ ((48 + n % 10) ∷ [])

-- std::to_string of a number that is not negative. There are no more digits than its value and one.
abbrev pub to_string : ℕ → Text
to_string n = digits (n + 1) n

-- Every character is a digit.
abbrev pub AllDigits : Text → Type 0
AllDigits [] = Unit {0}
AllDigits (c ∷ s) = (48 ≤ c) × (c ≤ 57) × AllDigits s

-- The value of a text of digits, behind a value that is read already.
abbrev pub value : ℕ → Text → ℕ
value v [] = v
value v (c ∷ s) = value (v * 10 + (c - 48)) s

AllDigits-append : (s t : Text) → AllDigits s → AllDigits t → AllDigits (s ++ t)
AllDigits-append [] t h k = k
AllDigits-append (c ∷ s) t (low, high, h) k = (low, high, AllDigits-append s t h k)

value-append : (v : ℕ) (s t : Text) → value v (s ++ t) ≡ value (value v s) t
value-append v [] t = refl
value-append v (c ∷ s) t = value-append (v * 10 + (c - 48)) s t

digits-AllDigits : (fuel n : ℕ) → AllDigits (digits fuel n)
unfolding digits
digits-AllDigits zero n = tt
digits-AllDigits (suc fuel) n = elim (Bool-cases (ltb n 10)) [
  | inl one ↦ rw one (omega arith, omega (arith, ltb→lt n 10 one), tt)
  | inr more ↦ rw more (
      AllDigits-append (digits fuel (n / 10)) ((48 + n % 10) ∷ []) (digits-AllDigits fuel (n / 10))
        (omega arith, omega arith, tt))
]

value-digits : (fuel n : ℕ) → n < fuel → value 0 (digits fuel n) ≡ n
unfolding digits
value-digits zero n h = absurd (omega arith)
value-digits (suc fuel) n h = elim (Bool-cases (ltb n 10)) [
  | inl one ↦ rw one (omega arith)
  | inr more ↦
      let large = ltb→le n 10 more in
      let higher = value-digits fuel (n / 10) (omega (arith, large)) in
      rw more (value-append 0 (digits fuel (n / 10)) ((48 + n % 10) ∷ []) ∙ omega (arith, higher))
]

append-some : (s t : Text) (d : ℕ) → (c : ℕ) × (r : Text) × (s ++ (d ∷ t) ≡ c ∷ r)
append-some [] t d = (d, t, refl)
append-some (c ∷ s) t d = (c, s ++ (d ∷ t), refl)

digits-some : (fuel n : ℕ) → (c : ℕ) × (s : Text) × (digits (suc fuel) n ≡ c ∷ s)
unfolding digits
digits-some fuel n = elim (Bool-cases (ltb n 10)) [
  | inl one ↦ (48 + n, [], rw one refl)
  | inr more ↦
      let (c, s, e) = append-some (digits fuel (n / 10)) [] (48 + n % 10) in (c, s, rw more e)
]

-- What is written are digits, at least one, and their value is the number.
pub to_string_lem :
    (n : ℕ)
    → (c : ℕ) × (s : Text) × (to_string n ≡ c ∷ s) × AllDigits (c ∷ s) × (value 0 (c ∷ s) ≡ n)
to_string_lem n =
    let (c, s, e) = digits-some n n in
    let more : n + 1 ≡ suc n = omega arith in
    let e' : to_string n ≡ c ∷ s = ap (λ k. digits k n) more ∙ e in
    (
      c,
      s,
      e',
      subst AllDigits e' (digits-AllDigits (n + 1) n),
      ap (value 0) (sym e') ∙ value-digits (n + 1) n (omega arith),
    )
