-- ===== src/Checks/BandLaws.antt =====
-- When the instrument's bands reject an order.
use kite_mcp_riskguard.Prelude.{
  ◌-◌, ◌≡◌, refl, ◌↔◌, ◌⊎◌, ◌||◌, ◌&&◌, not, true, false, Option, some, none, String, arith,
  Option-cases, inl, inr, if◌then◌else◌,
}
use kite_mcp_riskguard.Prelude.Int.{ℤ, pos, negsuc, leb_ℤ, ◌≤ℤ◌, ◌<ℤ◌, two_63, int64, ◌+ℤ◌}
use kite_mcp_riskguard.Env.{Env}
use kite_mcp_riskguard.Model.{OrderCheckRequest, State, CheckResult, allow, reject}
use kite_mcp_riskguard.Itoa.{itoa, fmt_rupees, fmt_pct, format_price_msg, format_band_rejection}
use kite_mcp_riskguard.Itoa.RoundTrip.{itoa-parse}
use kite_mcp_riskguard.Checks.Bands.{band_for_exchange, check_otr_band}

-- A 64-bit integer.
abbrev pub IsInt64 : ℤ → Type 0
IsInt64 z = (negsuc (two_63 - 1) ≤ℤ z) × (z <ℤ pos two_63)

pub int64-IsInt64 : (z : ℤ) → IsInt64 (int64 z)
unfolding int64
int64-IsInt64 (pos n) = ground arith
int64-IsInt64 (negsuc n) = ground arith

abbrev Returns : Option String → Type 0
Returns none = ⊥
Returns (some s) = Unit {0}

returned_value : (o : Option String) → Returns o → (s : String) × (o ≡ some s)
returned_value none h = absurd h
returned_value (some s) h = (s, refl)

itoa-returns : (z : ℤ) → IsInt64 z → (s : String) × (itoa z ≡ some s)
itoa-returns z (lo, hi) = let (s, e, _) = itoa-parse z lo hi in (s, e)

module _ (E : Env) where
  open E use {literal, f_add, f_sub, f_mul, f_lt, f_le, is_positive, to_float}

  -- The order is priced, a quote is found above zero, and the price lies strictly outside the band
  -- around it: 40% for an option, 0.75% otherwise.
  abbrev pub IsOutsideBand : OrderCheckRequest E → State E → Type 0
  IsOutsideBand req st = elim st.ltp_lookup [
    | none ↦ ⊥
    | some get_ltp ↦
        let (ltp, found) = get_ltp st.world req.exchange req.tradingsymbol in
        let pct = band_for_exchange E req.exchange req.tradingsymbol in
        (is_positive req.price ≡ true)
        × (found ≡ true)
        × (f_le ltp (literal 0 0) ≡ false)
        × ((f_lt (to_float req.price) (f_mul ltp (f_sub (literal 10 1) pct)) ≡ true)
            ⊎ (f_lt (f_mul ltp (f_add (literal 10 1) pct)) (to_float req.price) ≡ true))
  ]

module _ (E : Env) (truncates : (x : E.Float) → IsInt64 (E.truncate x)) where
  open E use {Float, literal, f_add, f_sub, f_mul, f_lt, f_le, is_positive, to_float}

  fmt_rupees-Returns : (v : Float) → Returns (fmt_rupees E v)
  unfolding fmt_rupees
  fmt_rupees-Returns v =
      let x =
        if f_lt v (literal 0 0)
        then E.truncate (f_sub v (literal 5 1))
        else E.truncate (f_add v (literal 5 1)) in
      let fits : IsInt64 x =
        elim (f_lt v (literal 0 0))
          as (λ b. IsInt64 (
            if b then E.truncate (f_sub v (literal 5 1)) else E.truncate (f_add v (literal 5 1)))) [
              | true ↦ truncates _
              | false ↦ truncates _
            ] in
      let (s, e) = itoa-returns x fits in rw e tt

  fmt_pct-Returns : (p : Float) → Returns (fmt_pct E p)
  unfolding fmt_pct
  fmt_pct-Returns p =
      let whole = E.truncate p in
      let frac =
        E.truncate (f_add (f_mul (f_sub p (E.of_int whole)) (literal 10 0)) (literal 5 1)) in
      let carry = leb_ℤ (pos 10) frac in
      let fits_w : IsInt64 (if carry then int64 (whole +ℤ pos 1) else whole) =
        elim carry as (λ b. IsInt64 (if b then int64 (whole +ℤ pos 1) else whole)) [
          | true ↦ int64-IsInt64 _
          | false ↦ truncates p
        ] in
      let fits_f : IsInt64 (if carry then pos 0 else frac) =
        elim carry as (λ b. IsInt64 (if b then pos 0 else frac)) [
          | true ↦ omega arith
          | false ↦ truncates _
        ] in
      let (w, ew) = itoa-returns _ fits_w in let (f, ef) = itoa-returns _ fits_f in rw (ew, ef) tt

  format_band_rejection-Returns :
      (price ltp pct : Float) → Returns (format_band_rejection E price ltp pct)
  unfolding format_band_rejection format_price_msg
  format_band_rejection-Returns price ltp pct =
      let (p, ep) = returned_value _ (fmt_rupees-Returns price) in
      let (b, eb) = returned_value _ (fmt_pct-Returns (f_mul pct (literal 100 0))) in
      let (l, el) = returned_value _ (fmt_rupees-Returns ltp) in rw (ep, eb, el) tt

  -- The band check always returns: the formatter of its message never runs out of its buffer, if a
  -- conversion to int64 gives a 64-bit integer. It rejects exactly the priced orders outside the band.
  pub check_otr_band-returns :
      (req : OrderCheckRequest E) (st : State E)
      → (r : CheckResult) × (check_otr_band E req st ≡ some r)
        × ((r.allowed ≡ false) ↔ IsOutsideBand E req st)
  unfolding check_otr_band
  check_otr_band-returns req st = elim (Option-cases st.ltp_lookup) [
    | inl off ↦ rw off (allow, refl, ground arith)
    | inr (get_ltp, on) ↦
        let (ltp, found) = get_ltp st.world req.exchange req.tradingsymbol in
        let (m, e) = returned_value _ (
          format_band_rejection-Returns (to_float req.price) ltp
            (band_for_exchange E req.exchange req.tradingsymbol)) in
        let price = to_float req.price in
        let pct = band_for_exchange E req.exchange req.tradingsymbol in
        let out =
          f_lt price (f_mul ltp (f_sub (literal 10 1) pct))
          || f_lt (f_mul ltp (f_add (literal 10 1) pct)) price in
        let quoted = not (not found || f_le ltp (literal 0 0)) in
        rw (on, e)
          (
            if is_positive req.price && quoted && out then reject "otr_band_violation" m else allow,
            ground arith,
            ground arith,
          )
  ]
