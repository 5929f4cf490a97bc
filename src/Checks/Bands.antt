-- ===== src/Checks/Bands.antt =====
-- The checks on the price and quantity bands of an instrument: otr_band.go, circuit_limit.go, and
-- checkQuantityLimit of internal_checks.go.
use Prim.Native.String.{len, slice}
use kite_mcp_riskguard.Prelude.{
  ◌-◌, Bool, false, not, ◌&&◌, ◌||◌, Option, none, some, [], ◌∷◌, String, eqb, ltb, ◌==◌,
  if◌then◌else◌,
}
use kite_mcp_riskguard.Prelude.Int.{pos, ltb_ℤ}
use kite_mcp_riskguard.Env.{Env, int, text, float}
use kite_mcp_riskguard.Model.Reasons.{
  reason_circuit_breached, reason_otr_band, reason_quantity_limit,
}
use kite_mcp_riskguard.Model.{CheckResult, allow, reject, OrderCheckRequest, State}
use kite_mcp_riskguard.Itoa.{format_band_rejection}

unfoldable pub is_option_symbol : String → String → Bool
is_option_symbol exchange symbol =
    if not (exchange == "NFO") && not (exchange == "BFO") && not (exchange == "MCX")
    then false
    else if ltb (len symbol) 2
    then false
    else (let suf = slice symbol (len symbol - 2) (len symbol) in suf == "CE" || suf == "PE")

module _ (E : Env) where
  open E use {Float, literal, f_add, f_sub, f_mul, f_lt, f_le, is_positive, to_float, sprintf}

  abbrev otr_band_options_pct : Float
  otr_band_options_pct = literal 40 2

  abbrev otr_band_cash_futures_pct : Float
  otr_band_cash_futures_pct = literal 75 4

  unfoldable pub band_for_exchange : String → String → Float
  band_for_exchange exchange symbol =
      if is_option_symbol exchange symbol then otr_band_options_pct else otr_band_cash_futures_pct

  -- otrBandCheck.Evaluate; `none`: the formatter of the message panicked.
  unfoldable pub check_otr_band : OrderCheckRequest E → State E → Option CheckResult
  check_otr_band req st = elim st.ltp_lookup [
    | none ↦ some allow
    | some get_ltp ↦
        if not (is_positive req.price)
        then some allow
        else (let (ltp, found) = get_ltp st.world req.exchange req.tradingsymbol in
            let band_pct = band_for_exchange req.exchange req.tradingsymbol in
            let low = f_mul ltp (f_sub (literal 10 1) band_pct) in
            let high = f_mul ltp (f_add (literal 10 1) band_pct) in
            let price = to_float req.price in
            if not found || f_le ltp (literal 0 0)
            then some allow
            else if f_lt price low || f_lt high price
            then (elim (format_band_rejection E price ltp band_pct) [
              | none ↦ none
              | some m ↦ some (reject reason_otr_band m)
            ])
            else some allow)
  ]

  -- circuitLimitCheck.Evaluate
  unfoldable pub check_circuit_limit : OrderCheckRequest E → State E → CheckResult
  check_circuit_limit req st = elim st.circuit_lookup [
    | none ↦ allow
    | some get_circuit_limits ↦
        if not (is_positive req.price)
        then allow
        else (let (lower, upper, found) =
              get_circuit_limits st.world req.exchange req.tradingsymbol in
            let price = to_float req.price in
            if not found || f_le upper (literal 0 0)
            then allow
            else if f_lt price lower || f_lt upper price
            then reject reason_circuit_breached (
                sprintf
                  "Order price Rs %.2f is outside the exchange circuit band [Rs %.2f, Rs %.2f]. Kite would reject this order at the gateway."
                  (float price ∷ float lower ∷ float upper ∷ []))
            else allow)
  ]

  unfoldable pub check_quantity_limit : OrderCheckRequest E → State E → CheckResult
  check_quantity_limit req st = elim st.freeze_lookup [
    | none ↦ allow
    | some get_freeze_quantity ↦
        if req.exchange == "" || req.tradingsymbol == ""
        then allow
        else (let (freeze_qty, found) =
              get_freeze_quantity st.world req.exchange req.tradingsymbol in
            if not found || eqb freeze_qty 0
            then allow
            else if ltb_ℤ req.quantity (pos 0) || ltb_ℤ (pos freeze_qty) req.quantity
            then reject reason_quantity_limit (
                sprintf "Quantity %d exceeds freeze limit %d for %s:%s" (
                  int req.quantity
                  ∷ int (pos freeze_qty)
                  ∷ text req.exchange
                  ∷ text req.tradingsymbol
                  ∷ []))
            else allow)
  ]
