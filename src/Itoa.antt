-- ===== src/Itoa.antt =====
-- otr_band.go: the decimal formatter `itoa`, and the texts that are built with it.
use Prim.Native.String
use Prim.Native.String.{char_at, ◌++◌ as append}
use kite_mcp_riskguard.Prelude.{
  ℕ, zero, suc, ◌/◌, ◌%◌, Bool, true, Option, none, some, String, if◌then◌else◌,
}
use kite_mcp_riskguard.Prelude.Int.{ℤ, pos, ◌+ℤ◌, neg_ℤ, eqb_ℤ, ltb_ℤ, leb_ℤ, int64, pos_part}
use kite_mcp_riskguard.Env.{Env}
pub mod RoundTrip

-- `byte('0' + d)` in front of the bytes written so far.
abbrev pub push_digit : ℕ → String → String
push_digit d s = String.◌∷◌ (char_at "0123456789" d) s

-- `for n > 0 { i--; buf[i] = …; n /= 10 }` with `i` slots left: the slots left after it and the
-- bytes, or `none` where the write has an index below 0 and panics.
unfoldable pub fill : ℕ → ℕ → String → Option (ℕ × String)
fill i zero s = some (i, s)
fill zero (suc n) s = none
fill (suc i) (suc n) s = fill i (suc n / 10) (push_digit (suc n % 10) s)

-- `if neg { i--; buf[i] = '-' }` and the result.
abbrev finish : Bool → Option (ℕ × String) → Option String
finish neg none = none
finish Bool.false (some (i, s)) = some s
finish true (some (zero, s)) = none
finish true (some (suc i, s)) = some (append "-" s)

-- The buffer has 20 slots. Where `-n` wraps to a negative number, the loop is not entered.
unfoldable pub itoa : ℤ → Option String
itoa n =
    if eqb_ℤ n (pos 0)
    then some "0"
    else (let neg = ltb_ℤ n (pos 0) in
        let m = if neg then int64 (neg_ℤ n) else n in finish neg (fill 20 (pos_part m) ""))

infixl 5 ◌>>=◌
abbrev ◌>>=◌ : Option String → (String → Option String) → Option String
none >>= k = none
some a >>= k = k a

module _ (E : Env) where
  open E use {Float, literal, of_int, f_add, f_sub, f_mul, f_lt, truncate}

  unfoldable pub fmt_rupees : Float → Option String
  fmt_rupees v = do
    s ← itoa (
        if f_lt v (literal 0 0)
        then truncate (f_sub v (literal 5 1))
        else truncate (f_add v (literal 5 1)))
    some (append "Rs " s)

  unfoldable pub fmt_pct : Float → Option String
  fmt_pct p =
      let whole = truncate p in
      let frac = truncate (f_add (f_mul (f_sub p (of_int whole)) (literal 10 0)) (literal 5 1)) in
      let carry = leb_ℤ (pos 10) frac in
      do
        w ← itoa (if carry then int64 (whole +ℤ pos 1) else whole)
        f ← itoa (if carry then pos 0 else frac)
        some (append w (append "." (append f "%")))

  unfoldable pub format_price_msg : Float → Float → Float → Option String
  format_price_msg price ltp band_pct = do
    p ← fmt_rupees price
    b ← fmt_pct band_pct
    l ← fmt_rupees ltp
    some (
        append "Order price " (
          append p (
            append " is outside the SEBI OTR exemption band ("
              (append b (append " around LTP " (append l ")"))))))

  unfoldable pub format_band_rejection : Float → Float → Float → Option String
  format_band_rejection price ltp band_pct =
      format_price_msg price ltp (f_mul band_pct (literal 100 0))
