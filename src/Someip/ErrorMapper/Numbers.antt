-- ===== src/Someip/ErrorMapper/Numbers.antt =====
-- The number that stands for a framework error (`normalizeCode`, src/someip/error_mapper.cpp).
use mathlib.Core.List.{append-nil, append_assoc}
use iov_vehicle_cgw_fota.Prelude.{
  leb, ◌≡◌, ◌≢◌, ◌≤◌, refl, ap, ◌∙◌, Option, ◌+◌, ◌*◌, ◌-◌, ℕ, List, [], ◌∷◌, ◌++◌, none, some,
  true, false, ◌==◌, length, length-append, if◌then◌else◌, All, arith,
}
use iov_vehicle_cgw_fota.Someip.ErrorMapper.{
  is_digit, after_found, leading_digits, zeros, padded, scan, padded_unless_empty, four_or,
  normalize_code,
}

abbrev pub Digit : ℕ → Type 0
Digit c = is_digit c ≡ true

-- Four digits.
abbrev pub FourDigits : List ℕ → Type 0
FourDigits num = All Digit num × ((length num == 4) ≡ true)

All-append : (xs ys : List ℕ) → All Digit xs → All Digit ys → All Digit (xs ++ ys)
All-append [] ys hx hy = hy
All-append (x ∷ xs) ys hx hy = (hx.0, All-append xs ys hx.1 hy)

zeros-All : (n : ℕ) → All Digit (zeros n)
unfolding zeros
zeros-All ℕ.zero = tt
zeros-All (ℕ.suc n) = (refl, zeros-All n)

leading_digits-All : (cs : List ℕ) → All Digit (leading_digits cs)
unfolding leading_digits
leading_digits-All [] = tt
leading_digits-All (c ∷ cs) = ground (arith, leading_digits-All cs)

padded-All : (num : List ℕ) → All Digit num → All Digit (padded num)
unfolding padded
padded-All num h = All-append (zeros (4 - length num)) num (zeros-All (4 - length num)) h

-- What stands behind the prefix, when four digits come of it, or else the fallback.
abbrev chosen : Option (List ℕ) → List ℕ → List ℕ
chosen found fallback = elim found [
  | none ↦ fallback
  | some rest ↦ four_or (padded (leading_digits rest)) fallback
]

-- The decimal value of digits behind those of value `acc`.
abbrev pub decimal : ℕ → List ℕ → ℕ
decimal acc [] = acc
decimal acc (c ∷ cs) = decimal (acc * 10 + (c - 48)) cs

-- No digit comes first.
abbrev pub EndsNumber : List ℕ → Type 0
EndsNumber [] = Unit
EndsNumber (c ∷ cs) = is_digit c ≡ false

-- "CGW-FW-"
abbrev pub framework_prefix : List ℕ
framework_prefix = 67 ∷ 71 ∷ 87 ∷ 45 ∷ 70 ∷ 87 ∷ 45 ∷ []

decimal-zeros : (n : ℕ) (num : List ℕ) → decimal 0 (zeros n ++ num) ≡ decimal 0 num
unfolding zeros
decimal-zeros ℕ.zero num = refl
decimal-zeros (ℕ.suc n) num = decimal-zeros n num

length-zeros : (n : ℕ) → length (zeros n) ≡ n
unfolding zeros
length-zeros ℕ.zero = refl
length-zeros (ℕ.suc n) = ap ℕ.suc (length-zeros n)

padded-decimal : (num : List ℕ) → decimal 0 (padded num) ≡ decimal 0 num
unfolding padded
padded-decimal num = decimal-zeros (4 - length num) num

padded-FourDigits : (num : List ℕ) → All Digit num → length num ≤ 4 → FourDigits (padded num)
unfolding padded
padded-FourDigits num h short =
    let whole : length (zeros (4 - length num) ++ num) ≡ 4 =
      omega (arith, length-append (zeros (4 - length num)) num, length-zeros (4 - length num)) in
    (All-append (zeros (4 - length num)) num (zeros-All (4 - length num)) h, rw whole refl)

leading_digits-append :
    (num rest : List ℕ) → All Digit num → EndsNumber rest → leading_digits (num ++ rest) ≡ num
unfolding leading_digits
leading_digits-append [] [] h k = refl
leading_digits-append [] (c ∷ cs) h k = rw k refl
leading_digits-append (c ∷ cs) rest h k = rw (h.0, leading_digits-append cs rest h.1 k) refl

after_found-prefix :
    (front tail : List ℕ)
    → All (λ c. c ≢ 67) front
    → after_found framework_prefix (front ++ (framework_prefix ++ tail)) ≡ some tail
unfolding after_found
after_found-prefix [] tail h = refl
after_found-prefix (c ∷ cs) tail h =
    let other : (67 == c) ≡ false = ground (arith, h.0) in
    ground (arith, other, after_found-prefix cs tail h.1)

prefixed :
    (front num rest : List ℕ)
    → All (λ c. c ≢ 67) front
    → All Digit num
    → length num ≤ 4
    → EndsNumber rest
    → normalize_code (front ++ (framework_prefix ++ (num ++ rest))) ≡ padded num
unfolding normalize_code
prefixed front num rest hf hn short hr =
    let code : List ℕ = front ++ (framework_prefix ++ (num ++ rest)) in
    let fallback : List ℕ = four_or (padded_unless_empty (scan [] code)) code in
    ap (λ found. chosen found fallback) (after_found-prefix front (num ++ rest) hf)
    ∙ (ap (λ ds. four_or (padded ds) fallback) (leading_digits-append num rest hn hr)
        ∙ ap (λ b. if b then padded num else fallback) (padded-FourDigits num hn short).1)

-- Bytes around a number: no digit, and no `C`, with which the prefix begins.
abbrev pub Plain : ℕ → Type 0
Plain c = (is_digit c ≡ false) × (c ≢ 67)

not_C-append :
    (xs ys : List ℕ) → All (λ c. c ≢ 67) xs → All (λ c. c ≢ 67) ys → All (λ c. c ≢ 67) (xs ++ ys)
not_C-append [] ys hx hy = hy
not_C-append (x ∷ xs) ys hx hy = (hx.0, not_C-append xs ys hx.1 hy)

not_C-Plain : (xs : List ℕ) → All Plain xs → All (λ c. c ≢ 67) xs
not_C-Plain [] h = tt
not_C-Plain (x ∷ xs) h = (h.0.1, not_C-Plain xs h.1)

no_letter : (c : ℕ) → Digit c → c ≢ 67
no_letter c h e = ground arith

not_C-Digit : (xs : List ℕ) → All Digit xs → All (λ c. c ≢ 67) xs
not_C-Digit [] h = tt
not_C-Digit (x ∷ xs) h = (no_letter x h.0, not_C-Digit xs h.1)

after_found-none :
    (code : List ℕ) → All (λ c. c ≢ 67) code → after_found framework_prefix code ≡ none
unfolding after_found
after_found-none [] h = refl
after_found-none (c ∷ cs) h =
    let other : (67 == c) ≡ false = ground (arith, h.0) in
    ground (arith, other, after_found-none cs h.1)

scan-digits :
    (acc num after : List ℕ) → All Digit num → scan acc (num ++ after) ≡ scan (acc ++ num) after
unfolding scan
scan-digits acc [] after h = rw append-nil refl
scan-digits acc (c ∷ cs) after h = rw (h.0) (
    scan-digits (acc ++ c ∷ []) cs after h.1
    ∙ ap (λ l. scan l after) (append_assoc acc (c ∷ []) cs))

scan-end : (num after : List ℕ) → (length num == 4) ≡ true → EndsNumber after → scan num after ≡ num
unfolding scan
scan-end num [] n h = refl
scan-end num (c ∷ cs) n h =
    let enough : leb 4 (length num) ≡ true = ground arith in rw (h, enough) refl

scan-number :
    (before num after : List ℕ)
    → All Plain before
    → FourDigits num
    → EndsNumber after
    → scan [] (before ++ (num ++ after)) ≡ num
unfolding scan
scan-number [] num after hb four he = scan-digits [] num after four.0 ∙ scan-end num after four.1 he
scan-number (c ∷ cs) num after hb four he = rw (hb.0.0) (scan-number cs num after hb.1 four he)

padded-kept : (num : List ℕ) → (length num == 4) ≡ true → padded_unless_empty num ≡ num
unfolding padded
padded-kept [] n = refl
padded-kept (c ∷ cs) n =
    let whole : 4 - length (c ∷ cs) ≡ 0 = ground arith in ap (λ k. zeros k ++ (c ∷ cs)) whole

found_between :
    (before num after : List ℕ)
    → All Plain before
    → FourDigits num
    → All (λ c. c ≢ 67) after
    → EndsNumber after
    → normalize_code (before ++ (num ++ after)) ≡ num
unfolding normalize_code
found_between before num after hb four ha he =
    let code : List ℕ = before ++ (num ++ after) in
    let fallback = λ (n : List ℕ). four_or (padded_unless_empty n) code in
    let free =
      not_C-append before (num ++ after) (not_C-Plain before hb)
        (not_C-append num after (not_C-Digit num four.0) ha) in
    ap (λ found. chosen found (fallback (scan [] code))) (after_found-none code free)
    ∙ (ap fallback (scan-number before num after hb four he)
        ∙ (ap (λ n. four_or n code) (padded-kept num four.1)
            ∙ ap (λ b. if b then num else code) four.1))

-- A code of the framework, "CGW-FW-" behind any bytes other than `C` and in front of at most four
-- digits with no further digit behind them, is read as four digits of the same decimal value. These
-- are also what is read from a code without `C` in which they stand behind bytes that are no digits,
-- with no further digit directly behind them.
pub framework_number :
    (front num rest before after : List ℕ)
    → All (λ c. c ≢ 67) front
    → All Digit num
    → length num ≤ 4
    → EndsNumber rest
    → All Plain before
    → All (λ c. c ≢ 67) after
    → EndsNumber after
    → let number = normalize_code (front ++ (framework_prefix ++ (num ++ rest))) in
      FourDigits number
      × (decimal 0 number ≡ decimal 0 num)
      × (normalize_code (before ++ (number ++ after)) ≡ number)
framework_number front num rest before after hf hn short hr hb ha he =
    let four = padded-FourDigits num hn short in
    rw (prefixed front num rest hf hn short hr)
      (four, padded-decimal num, found_between before (padded num) after hb four ha he)
