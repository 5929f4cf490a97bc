-- ===== src/Itoa/RoundTrip.antt =====
-- What `itoa` writes reads back as the number, and its buffer is long enough.
use Prim.Native.Char.{code}
use Prim.Native.String.{char_at, ◌++◌ as append}
use text.Mathlib.TextLemmas.{nil-append, cons-append}
use native.Mathlib.Decide.{dec_lt}
use kite_mcp_riskguard.Prelude.{
  ℕ, zero, suc, ◌+◌, ◌-◌, ◌*◌, ◌/◌, ◌%◌, ◌≤◌, ◌<◌, ◌≡◌, ◌≢◌, ◌⊎◌, inl, inr, refl, ap, ◌∙◌, some,
  String, eqb, arith, if◌then◌else◌,
}
use kite_mcp_riskguard.Prelude.Int.{ℤ, pos, negsuc, ◌≤ℤ◌, ◌<ℤ◌, neg_ℤ, int64, int64_small, two_63}
use kite_mcp_riskguard.Itoa.{push_digit, fill, itoa}

-- The reading of decimal digits from the left, after a number already read.
unfoldable pub decode : String → ℕ → ℕ
decode String.[] n = n
decode (String.◌∷◌ c s) n = decode s (n * 10 + (code c - 48))

-- A decimal integer with an optional minus sign.
unfoldable pub parse : String → ℤ
parse String.[] = pos 0
parse (String.◌∷◌ c s) =
    if eqb (code c) 45 then neg_ℤ (pos (decode s 0)) else pos (decode (String.◌∷◌ c s) 0)

-- The digits' codes.
digit_code : (d : ℕ) → d < 10 → code (char_at "0123456789" d) ≡ 48 + d
digit_code zero h = refl
digit_code (suc zero) h = refl
digit_code (suc (suc zero)) h = refl
digit_code (suc (suc (suc zero))) h = refl
digit_code (suc (suc (suc (suc zero)))) h = refl
digit_code (suc (suc (suc (suc (suc zero))))) h = refl
digit_code (suc (suc (suc (suc (suc (suc zero)))))) h = refl
digit_code (suc (suc (suc (suc (suc (suc (suc zero))))))) h = refl
digit_code (suc (suc (suc (suc (suc (suc (suc (suc zero)))))))) h = refl
digit_code (suc (suc (suc (suc (suc (suc (suc (suc (suc zero))))))))) h = refl
digit_code (suc (suc (suc (suc (suc (suc (suc (suc (suc (suc d)))))))))) h = absurd (omega arith)

decode-push_digit :
    (d n : ℕ) (s : String) → d < 10 → decode (push_digit d s) n ≡ decode s (n * 10 + d)
unfolding decode
decode-push_digit d n s h = ap (decode s) (omega (arith, digit_code d h))

-- The head is no minus sign.
abbrev IsUnsigned : String → Type 0
IsUnsigned String.[] = Unit {0}
IsUnsigned (String.◌∷◌ c s) = code c ≢ 45

abbrev pow10 : ℕ → ℕ
pow10 zero = 1
pow10 (suc k) = 10 * pow10 k

-- A number of `k` digits takes at most `k` slots; what is then written reads as the number, followed
-- by what stood there.
record Filled (i k n : ℕ) (s : String) : Type 0 where
  left : ℕ
  out : String
  fills : fill i n s ≡ some (left, out)
  enough : i ≤ left + k
  reads : decode out 0 ≡ decode s n
  unsigned : IsUnsigned out

fill-Filled : (i k n : ℕ) (s : String) → n < pow10 k → k ≤ i → IsUnsigned s → Filled i k n s
unfolding fill
fill-Filled i k zero s lt le u = record {
  left = i;
  out = s;
  fills = refl;
  enough = omega arith;
  reads = refl;
  unsigned = u;
}
fill-Filled i zero (suc n) s lt le u = absurd (omega arith)
fill-Filled zero (suc k) (suc n) s lt le u = absurd (omega arith)
fill-Filled (suc i) (suc k) (suc n) s lt le u =
    let d = suc n % 10 in
    let small : d < 10 = omega arith in
    let sign : IsUnsigned (push_digit d s) = λ e. absurd (omega (arith, digit_code d small)) in
    let f = fill-Filled i k (suc n / 10) (push_digit d s) (omega arith) (omega arith) sign in
    record {
      left = f.left;
      out = f.out;
      fills = f.fills;
      enough = omega (arith, f.enough);
      reads = f.reads ∙ decode-push_digit d (suc n / 10) s small ∙ ap (decode s) (omega arith);
      unsigned = f.unsigned;
    }

parse_of_IsUnsigned : (s : String) → IsUnsigned s → parse s ≡ pos (decode s 0)
unfolding parse decode
parse_of_IsUnsigned String.[] u = refl
parse_of_IsUnsigned (String.◌∷◌ c s) u = ground arith

append-minus : (s : String) → append "-" s ≡ String.◌∷◌ (char_at "-" 0) s
append-minus s = cons-append (char_at "-" 0) "" s ∙ ap (String.◌∷◌ (char_at "-" 0)) (nil-append s)

parse-minus : (s : String) → parse (append "-" s) ≡ neg_ℤ (pos (decode s 0))
parse-minus s = ap parse (append-minus s) ∙ unfold parse in refl

itoa-pos :
    (m left : ℕ) (out : String)
    → fill 20 (suc m) "" ≡ some (left, out)
    → itoa (pos (suc m)) ≡ some out
unfolding itoa
itoa-pos m left out e = ground arith

itoa-negsuc :
    (m left : ℕ) (out : String)
    → suc m < two_63
    → 0 < left
    → fill 20 (suc m) "" ≡ some (left, out)
    → itoa (negsuc m) ≡ some (append "-" out)
unfolding itoa
itoa-negsuc m left out small room e = ground (arith, int64_small (pos (suc m)))

itoa_least : itoa (negsuc (two_63 - 1)) ≡ some "-"
unfolding itoa fill int64
itoa_least = refl

decode-nil : (n : ℕ) → decode "" n ≡ n
unfolding decode
decode-nil n = refl

-- The formatter returns for every 64-bit integer. Its digits read back as the number, except for the
-- least one, whose negation wraps: that one is written as a bare minus sign.
pub itoa-parse :
    (n : ℤ)
    → negsuc (two_63 - 1) ≤ℤ n
    → n <ℤ pos two_63
    → (s : String) × (itoa n ≡ some s) × ((n ≡ negsuc (two_63 - 1)) × (s ≡ "-") ⊎ (parse s ≡ n))
itoa-parse (pos zero) lo hi = ("0", unfold itoa in refl, inr (unfold parse decode in refl))
itoa-parse (pos (suc n)) lo hi =
    let f = fill-Filled 20 19 (suc n) "" (omega arith) (omega arith) tt in
    (
      f.out,
      itoa-pos n f.left f.out f.fills,
      inr (parse_of_IsUnsigned f.out f.unsigned ∙ ap pos (f.reads ∙ decode-nil _)),
    )
itoa-parse (negsuc n) lo hi = elim (dec_lt (suc n) two_63) [
  | yes small ↦
      let f = fill-Filled 20 19 (suc n) "" (omega arith) (omega arith) tt in
      (
        append "-" f.out,
        itoa-negsuc n f.left f.out small (omega (arith, f.enough)) f.fills,
        inr (parse-minus f.out ∙ ap (λ m. neg_ℤ (pos m)) (f.reads ∙ decode-nil _) ∙ ground arith),
      )
  | no large ↦
      let least : n ≡ two_63 - 1 = omega arith in
      ("-", ap (λ m. itoa (negsuc m)) least ∙ itoa_least, inl (ap negsuc least, refl))
]
