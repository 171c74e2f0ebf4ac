-- ===== src/Common/Decimal.antt =====
-- `u64::to_string` and `str::parse::<u64>`.
use Prim.Native.Nat.{ℕ, zero, suc, ◌+◌, ◌-◌, ◌*◌, ◌/◌, ◌%◌, ◌^◌, ◌<◌}
use mathlib.Core.Path.{◌≡◌, refl, ap, ◌∙◌}
use mathlib.Core.Bool.{Bool, true, false, ◌&&◌}
use mathlib.Core.List.{[], ◌∷◌}
use mathlib.Core.Logic.{inl, inr}
use mathlib.Core.Option.{Option, none, some}
use native.Mathlib.Omega.{arith}
use native.Mathlib.Nat.{pow-suc}
use dbvm.Common.Tests.{ltb, leb, ◌==◌, if◌then◌else◌, Bool-cases}
use dbvm.Common.Texts.{Text}

abbrev pub u64_mod : ℕ
u64_mod = 2 ^ 64

-- The digits of `n` in front of `rest`; the fuel bounds their number.
digits : ℕ → ℕ → Text → Text
digits zero n rest = rest
digits (suc fuel) n rest =
    let out = (b'0' + n % 10) ∷ rest in
    let more = digits fuel (n / 10) out in if n / 10 == 0 then out else more

-- A `u64` has at most twenty digits.
unfoldable pub to_string : ℕ → Text
unfolding digits
to_string n = digits 20 n []

-- An overflow is an error.
scan : ℕ → Text → Option ℕ
scan acc [] = some acc
scan acc (c ∷ s) =
    let rest = scan (acc * 10 + (c - b'0')) s in
    if leb b'0' c && leb c b'9'
    then (if ltb (acc * 10 + (c - b'0')) u64_mod then rest else none)
    else none

-- A leading plus sign is accepted, and no digit at all is an error.
unfoldable pub parse_u64 : Text → Option ℕ
unfolding scan
parse_u64 [] = none
parse_u64 (c ∷ []) = scan 0 (c ∷ [])
parse_u64 (c ∷ d ∷ s) = if c == b'+' then scan 0 (d ∷ s) else scan 0 (c ∷ d ∷ s)

scan-digit :
    (acc d : ℕ) (rest : Text)
    → d < 10
    → acc * 10 + d < u64_mod
    → scan acc ((b'0' + d) ∷ rest) ≡ scan (acc * 10 + d) rest
unfolding scan
scan-digit acc d rest hd lt = let e : b'0' + d - b'0' ≡ d = omega arith in rw e (ground arith)

-- Reading the digits of `n` from zero gives `n`, and goes on with what stands behind them.
scan-digits :
    (fuel n : ℕ) (rest : Text)
    → n < 10 ^ fuel
    → n < u64_mod
    → scan 0 (digits fuel n rest) ≡ scan n rest
unfolding digits
scan-digits zero n rest h lt = let e : n ≡ 0 = omega arith in rw e
scan-digits (suc fuel) n rest h lt = elim (Bool-cases (n / 10 == 0)) [
  | inl e ↦
      let whole : 0 * 10 + n % 10 ≡ n = ground (arith, e) in
      rw e (scan-digit 0 (n % 10) rest (omega arith) (omega arith) ∙ ap (λ k. scan k rest) whole)
  | inr e ↦
      let small : n / 10 < 10 ^ fuel =
        let h' : n < 10 ^ fuel * 10 = rw pow-suc at h in omega arith in
      let back : n / 10 * 10 + n % 10 ≡ n = omega arith in
      rw e (
        scan-digits fuel (n / 10) ((b'0' + n % 10) ∷ rest) small (omega arith)
        ∙ scan-digit (n / 10) (n % 10) rest (omega arith) (omega arith)
        ∙ ap (λ k. scan k rest) back)
]

-- The first character is a digit.
first_digit : Text → Bool
first_digit [] = false
first_digit (c ∷ s) = leb b'0' c

digits-first_digit :
    (fuel n : ℕ) (rest : Text) → first_digit rest ≡ true → first_digit (digits fuel n rest) ≡ true
unfolding digits first_digit
digits-first_digit zero n rest h = h
digits-first_digit (suc fuel) n rest h =
    ground (arith, digits-first_digit fuel (n / 10) ((b'0' + n % 10) ∷ rest))

to_string-first_digit : (n : ℕ) → first_digit (to_string n) ≡ true
unfolding to_string digits first_digit
to_string-first_digit n = ground (arith, digits-first_digit 19 (n / 10) ((b'0' + n % 10) ∷ []))

parse_u64-scan : (s : Text) → first_digit s ≡ true → parse_u64 s ≡ scan 0 s
unfolding parse_u64 first_digit
parse_u64-scan [] h = cc
parse_u64-scan (c ∷ []) h = refl
parse_u64-scan (c ∷ d ∷ s) h = ground arith

-- Parsing what was printed gives the number back.
pub parse-to_string : (n : ℕ) → n < u64_mod → parse_u64 (to_string n) ≡ some n
parse-to_string n lt =
    parse_u64-scan (to_string n) (to_string-first_digit n)
    ∙ (unfold to_string scan in scan-digits 20 n [] (omega arith) lt)
