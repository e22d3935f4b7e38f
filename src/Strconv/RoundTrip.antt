-- ===== src/Strconv/RoundTrip.antt =====
-- A printed number is parsed back, and consists of digits.
use zygote.Common.{
  ℕ, zero, suc, ◌+◌, ◌/◌, ◌%◌, ◌≤◌, ◌<◌, some, [], ◌∷◌, ltb, Bytes, All, Lacks, pos, max_int, ◌≡◌,
  ◌≢◌, refl, ◌∙◌, arith, Bool-cases, inl, inr, true,
}
use zygote.Strconv.{digits, format_nat, itoa, is_digit, scan, unsigned, atoi}

abbrev pub IsDigit : ℕ → Type 0
IsDigit c = (b'0' ≤ c) × (c ≤ b'9')

pub is_digit_lem : (c : ℕ) → IsDigit c → is_digit c ≡ true
unfolding is_digit
is_digit_lem c h = ground arith

scan-digits : (fuel n : ℕ) (out : Bytes) → n < fuel → scan (digits fuel n out) 0 ≡ scan out n
unfolding scan digits
scan-digits zero n out h = elim h [ ]
scan-digits (suc fuel) n out h = ground (arith, scan-digits fuel (n / 10) ((b'0' + n % 10) ∷ out))

digits-IsDigit : (fuel n : ℕ) (out : Bytes) → All IsDigit out → All IsDigit (digits fuel n out)
unfolding digits
digits-IsDigit zero n out h = h
digits-IsDigit (suc fuel) n out h =
    ground (arith, digits-IsDigit fuel (n / 10) ((b'0' + n % 10) ∷ out))

pub format_nat-IsDigit : (n : ℕ) → All IsDigit (format_nat n)
unfolding format_nat
format_nat-IsDigit n = digits-IsDigit (suc n) n [] tt

digits-cons :
    (fuel n d : ℕ) (out : Bytes) → (c : ℕ) × (s : Bytes) × (digits fuel n (d ∷ out) ≡ c ∷ s)
unfolding digits
digits-cons zero n d out = (d, out, refl)
digits-cons (suc fuel) n d out =
    let (c, s, e) = digits-cons fuel (n / 10) (b'0' + n % 10) (d ∷ out) in
    elim (Bool-cases (ltb n 10)) [
      | inl last ↦ (b'0' + n, d ∷ out, rw last)
      | inr more ↦ (c, s, rw more e)
    ]

pub format_nat-cons : (n : ℕ) → (c : ℕ) × (s : Bytes) × (format_nat n ≡ c ∷ s)
unfolding format_nat digits
format_nat-cons n =
    let (c, s, e) = digits-cons n (n / 10) (b'0' + n % 10) [] in
    elim (Bool-cases (ltb n 10)) [
      | inl last ↦ (b'0' + n, [], rw last)
      | inr more ↦ (c, s, rw more e)
    ]

pub Lacks-digits : (b : ℕ) (s : Bytes) → All IsDigit s → ((c : ℕ) → IsDigit c → c ≢ b) → Lacks b s
Lacks-digits b [] h off = tt
Lacks-digits b (c ∷ s) h off = (off c h.0, Lacks-digits b s h.1 off)

unsigned-scan : (s : Bytes) → s ≢ [] → unsigned s ≡ scan s 0
unfolding unsigned
unsigned-scan [] h = absurd (h refl)
unsigned-scan (c ∷ s) h = refl

format_nat-ne-nil : (n : ℕ) → format_nat n ≢ []
format_nat-ne-nil n h = let (c, s, e) = format_nat-cons n in cc

unsigned-format_nat : (n : ℕ) → unsigned (format_nat n) ≡ some n
unfolding format_nat scan
unsigned-format_nat n =
    unsigned-scan _ (format_nat-ne-nil n) ∙ scan-digits (suc n) n [] (omega arith)

atoi-digits :
    (c : ℕ) (s : Bytes) (n : ℕ)
    → IsDigit c
    → unsigned (c ∷ s) ≡ some n
    → n ≤ max_int
    → atoi (c ∷ s) ≡ some (pos n)
unfolding atoi
atoi-digits c s n d e h = ground arith

-- An `int` that is not negative is read back from its print.
pub atoi-itoa : (n : ℕ) → n ≤ max_int → atoi (itoa (pos n)) ≡ some (pos n)
unfolding itoa
atoi-itoa n h =
    let (c, s, e) = format_nat-cons n in
    let d : All IsDigit (c ∷ s) = rw e at (format_nat-IsDigit n) in
    rw e (atoi-digits c s n d.0 (rw (← e) (unsigned-format_nat n)) h)
