-- ===== src/Prelude/Decimal.antt =====
-- The `%d` of fmt: decimal digits, with a sign before a negative number.
use Prim.Native.Nat.{ℕ, zero, suc, ◌/◌, ◌%◌, ◌<◌, ◌≤◌}
use Prim.Native.String.{String, ◌++◌ as ◌<>◌, count}
use mathlib.Core.Path.{◌≡◌, refl, ap, sym, ◌∙◌}
use mathlib.Core.Bool.{false}
use mathlib.Core.Logic.{◌⊎◌, inl, inr}
use native.Mathlib.Omega.{arith}
use mathlib.Core.Logic.{◌≢◌}
use text.Mathlib.Text.{◌==◌}
use text.Mathlib.TextEquality.{eq_iff}
use text.Mathlib.TextLemmas.{
  length-append, append_inj, append_assoc, nil-append, append_cancel_right,
}
use fusioninfer.Prelude.Tests.{ltb, ltb→lt, if◌then◌else◌, Bool-cases}
use fusioninfer.Prelude.Int.{ℤ, pos, negsuc}

unfoldable pub digit : ℕ → String
digit zero = "0"
digit (suc zero) = "1"
digit (suc (suc zero)) = "2"
digit (suc (suc (suc zero))) = "3"
digit (suc (suc (suc (suc zero)))) = "4"
digit (suc (suc (suc (suc (suc zero))))) = "5"
digit (suc (suc (suc (suc (suc (suc zero)))))) = "6"
digit (suc (suc (suc (suc (suc (suc (suc zero))))))) = "7"
digit (suc (suc (suc (suc (suc (suc (suc (suc zero)))))))) = "8"
digit (suc (suc (suc (suc (suc (suc (suc (suc (suc n))))))))) = "9"

-- The digits of `n`, at most `fuel + 1` of them.
unfoldable pub digits : ℕ → ℕ → String
unfolding digit
digits zero n = digit n
digits (suc fuel) n =
    let front = digits fuel (n / 10) in if ltb n 10 then digit n else front <> digit (n % 10)

-- The number's own value is fuel enough: each round divides it by ten.
unfoldable pub decimal : ℕ → String
unfolding digits
decimal n = digits n n

unfoldable pub decimal_ℤ : ℤ → String
unfolding decimal
decimal_ℤ (pos n) = decimal n
decimal_ℤ (negsuc n) = "-" <> decimal (suc n)

-- The number that a digit stands for.
digit_value : String → ℕ
digit_value s =
    if s == "1"
    then 1
    else if s == "2"
    then 2
    else if s == "3"
    then 3
    else if s == "4"
    then 4
    else if s == "5"
    then 5
    else if s == "6"
    then 6
    else if s == "7"
    then 7
    else if s == "8"
    then 8
    else if s == "9"
    then 9
    else 0

digit_value-digit : (n : ℕ) → n < 10 → digit_value (digit n) ≡ n
unfolding digit digit_value
digit_value-digit zero h = refl
digit_value-digit (suc zero) h = refl
digit_value-digit (suc (suc zero)) h = refl
digit_value-digit (suc (suc (suc zero))) h = refl
digit_value-digit (suc (suc (suc (suc zero)))) h = refl
digit_value-digit (suc (suc (suc (suc (suc zero))))) h = refl
digit_value-digit (suc (suc (suc (suc (suc (suc zero)))))) h = refl
digit_value-digit (suc (suc (suc (suc (suc (suc (suc zero))))))) h = refl
digit_value-digit (suc (suc (suc (suc (suc (suc (suc (suc zero)))))))) h = refl
digit_value-digit (suc (suc (suc (suc (suc (suc (suc (suc (suc n))))))))) h =
    let e : n ≡ 0 = omega arith in rw e

digit_inj : (a b : ℕ) → a < 10 → b < 10 → digit a ≡ digit b → a ≡ b
digit_inj a b ha hb e = sym (digit_value-digit a ha) ∙ ap digit_value e ∙ digit_value-digit b hb

count-digit : (n : ℕ) → count (digit n) ≡ 1
unfolding digit
count-digit zero = refl
count-digit (suc zero) = refl
count-digit (suc (suc zero)) = refl
count-digit (suc (suc (suc zero))) = refl
count-digit (suc (suc (suc (suc zero)))) = refl
count-digit (suc (suc (suc (suc (suc zero))))) = refl
count-digit (suc (suc (suc (suc (suc (suc zero)))))) = refl
count-digit (suc (suc (suc (suc (suc (suc (suc zero))))))) = refl
count-digit (suc (suc (suc (suc (suc (suc (suc (suc zero)))))))) = refl
count-digit (suc (suc (suc (suc (suc (suc (suc (suc (suc n))))))))) = refl

digits_small : (f n : ℕ) → n < 10 → digits f n ≡ digit n
unfolding digits
digits_small zero n h = refl
digits_small (suc f) n h = ground arith

digits_large : (f n : ℕ) → ltb n 10 ≡ false → digits (suc f) n ≡ digits f (n / 10) <> digit (n % 10)
unfolding digits
digits_large f n h = rw (h, digits)

count-digits_pos : (f n : ℕ) → 0 < count (digits f n)
unfolding digits
count-digits_pos zero n = omega (arith, count-digit n)
count-digits_pos (suc f) n = elim (Bool-cases (ltb n 10)) [
  | inl small ↦ rw small (omega (arith, count-digit n))
  | inr large ↦
      rw (large, length-append (digits f (n / 10)) (digit (n % 10)))
        (omega (arith, count-digit (n % 10)))
]

append-one_inj :
    (s t a b : String) → count a ≡ 1 → count b ≡ 1 → s <> a ≡ t <> b → (s ≡ t) × (a ≡ b)
append-one_inj s t a b ha hb e =
    append_inj e (omega (arith, ap count e, length-append s a, length-append t b))

dash_value : digit_value "-" ≡ 0
unfolding digit_value
dash_value = refl

dash-ne-zero : "-" ≢ digit 0
unfolding digit
dash-ne-zero e = ground (arith, eq_iff "-" "0")

dash-ne-digit : (n : ℕ) → n < 10 → "-" ≢ digit n
dash-ne-digit n h e =
    let zero_value : n ≡ 0 = sym (digit_value-digit n h) ∙ ap digit_value (sym e) ∙ dash_value in
    dash-ne-zero (e ∙ ap digit zero_value)

-- A number is printed as one digit, or as the digits of its tenth and one more.
digits_split :
    (f n : ℕ)
    → n ≤ f
    → ((n < 10) × (digits f n ≡ digit n))
      ⊎ ((g : ℕ) × (f ≡ suc g) × (n / 10 ≤ g) × (digits f n ≡ digits g (n / 10) <> digit (n % 10)))
digits_split zero n h = inl (omega arith, digits_small zero n (omega arith))
digits_split (suc f) n h = elim (Bool-cases (ltb n 10)) [
  | inl small ↦ inl (ltb→lt n 10 small, digits_small (suc f) n (ltb→lt n 10 small))
  | inr large ↦ inr (f, refl, ground arith, digits_large f n large)
]

-- What precedes the last digit, and that digit.
digits_last :
    (f n : ℕ) → n ≤ f → (front : String) × (d : ℕ) × (d < 10) × (digits f n ≡ front <> digit d)
digits_last f n h = elim (digits_split f n h) [
  | inl (small, e) ↦ ("", n, small, e ∙ sym (nil-append (digit n)))
  | inr (g, _, _, e) ↦ (digits g (n / 10), n % 10, omega arith, e)
]

-- A dashed number with its last character apart: after the dash, or after a front.
dashed_one : (s x d : String) → x ≡ d → s <> "-" <> x ≡ (s <> "-") <> d
dashed_one s x d e = ap (λ r. s <> "-" <> r) e ∙ sym (append_assoc s "-" d)

dashed_more : (s x front d : String) → x ≡ front <> d → s <> "-" <> x ≡ (s <> "-" <> front) <> d
dashed_more s x front d e =
    ap (λ r. s <> "-" <> r) e
    ∙ ap (λ r. s <> r) (sym (append_assoc "-" front d))
    ∙ sym (append_assoc s ("-" <> front) d)

-- A dash is not where a number has a digit.
dashed-ne-digits : (s t : String) (f n : ℕ) → n ≤ f → s <> "-" ≢ t <> "-" <> digits f n
dashed-ne-digits s t f n h e =
    let (front, d, small, split) = digits_last f n h in
    dash-ne-digit d small
      (append-one_inj s (t <> "-" <> front) "-" (digit d) refl (count-digit d)
        (e ∙ dashed_more t (digits f n) front (digit d) split)).1

-- The digits after the last dash determine the text before it and the number.
dashed_inj :
    (k f g n m : ℕ) (s t : String)
    → f < k
    → n ≤ f
    → m ≤ g
    → s <> "-" <> digits f n ≡ t <> "-" <> digits g m
    → (s ≡ t) × (n ≡ m)
dashed_inj zero f g n m s t hf hn hm e = elim hf [ ]
dashed_inj (suc k) f g n m s t hf hn hm e = elim (digits_split f n hn) [
  | inl (n_small, en) ↦ elim (digits_split g m hm) [
    | inl (m_small, em) ↦
        let (p, q) =
          append-one_inj (s <> "-") (t <> "-") (digit n) (digit m) (count-digit n) (count-digit m) (
            sym (dashed_one s (digits f n) (digit n) en)
            ∙ e
            ∙ dashed_one t (digits g m) (digit m) em) in
        (append_cancel_right s t "-" p, digit_inj n m n_small m_small q)
    | inr (g', _, hg', em) ↦ absurd (
        dashed-ne-digits s t g' (m / 10) hg'
          (append-one_inj (s <> "-") (t <> "-" <> digits g' (m / 10)) (digit n) (digit (m % 10))
            (count-digit n) (count-digit (m % 10))
            (sym (dashed_one s (digits f n) (digit n) en)
              ∙ e
              ∙ dashed_more t (digits g m) (digits g' (m / 10)) (digit (m % 10)) em)).0)
  ]
  | inr (f', ef, hf', en) ↦ elim (digits_split g m hm) [
    | inl (m_small, em) ↦ absurd (
        dashed-ne-digits t s f' (n / 10) hf'
          (append-one_inj (t <> "-") (s <> "-" <> digits f' (n / 10)) (digit m) (digit (n % 10))
            (count-digit m) (count-digit (n % 10))
            (sym (dashed_one t (digits g m) (digit m) em)
              ∙ sym e
              ∙ dashed_more s (digits f n) (digits f' (n / 10)) (digit (n % 10)) en)).0)
    | inr (g', _, hg', em) ↦
        let (p, q) =
          append-one_inj (s <> "-" <> digits f' (n / 10)) (t <> "-" <> digits g' (m / 10))
            (digit (n % 10)) (digit (m % 10)) (count-digit (n % 10)) (count-digit (m % 10))
            (sym (dashed_more s (digits f n) (digits f' (n / 10)) (digit (n % 10)) en)
              ∙ e
              ∙ dashed_more t (digits g m) (digits g' (m / 10)) (digit (m % 10)) em) in
        let (same, front) = dashed_inj k f' g' (n / 10) (m / 10) s t (omega arith) hf' hg' p in
        (same, omega (arith, digit_inj (n % 10) (m % 10) (omega arith) (omega arith) q))
  ]
]

-- `fmt.Sprintf("%s-%d", s, n)` determines the text `s` and the number `n`.
pub dashed-decimal_inj :
    (s t : String) (n m : ℕ) → s <> "-" <> decimal n ≡ t <> "-" <> decimal m → (s ≡ t) × (n ≡ m)
unfolding decimal
dashed-decimal_inj s t n m e =
    dashed_inj (suc n) n m n m s t (omega arith) (omega arith) (omega arith) e
