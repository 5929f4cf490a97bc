-- ===== src/Dedup.antt =====
-- dedup.go: idempotency keys with a time to live.
use kite_mcp_riskguard.Prelude.{
  ℕ, Bool, true, false, not, none, some, List, [], ◌∷◌, String, if◌then◌else◌, length,
}
use kite_mcp_riskguard.Prelude.Int.{ℤ, pos, sub_ℕ, ltb_ℤ, leb_ℤ, pos_part}
use kite_mcp_riskguard.Prelude.Dict.{Dict, lookup, insert}
use Prim.Native.String.{◌++◌ as append}
use kite_mcp_riskguard.Env.{Env, Time}
use kite_mcp_riskguard.Calendar.{minutes}
use kite_mcp_riskguard.Model.{Dedup}
pub mod History
pub mod Keys

abbrev pub default_dedup_ttl : ℕ
default_dedup_ttl = minutes 15

unfoldable pub new_dedup : ℤ → Dedup
new_dedup ttl = record {
  entries = [];
  ttl = if leb_ℤ ttl (pos 0) then default_dedup_ttl else pos_part ttl;
}

-- `now.Sub(ts) < ttl`. Sub stops at the ends of int64, and a ttl is below the upper one.
abbrev pub within : Time → Time → ℕ → Bool
within now ts ttl = ltb_ℤ (sub_ℕ now ts) (pos ttl)

-- `SeenOrAdd` on a hashed key.
unfoldable pub seen_or_add_key : String → Time → Dedup → Bool × Dedup
seen_or_add_key key now d =
    let added : Bool × Dedup = (false, record d { entries = insert key now d.entries }) in
    elim (lookup key d.entries) [
      | some ts ↦ if within now ts d.ttl then (true, d) else added
      | none ↦ added
    ]

unfoldable pub size : Dedup → ℕ
size d = length d.entries

-- The loop of `Cleanup`; it visits every entry, so the order of Go's range plays no part.
unfoldable pub sweep : Time → ℕ → Dict Time → Dict Time
sweep now ttl [] = []
sweep now ttl ((k, ts) ∷ m) =
    if not (within now ts ttl) then sweep now ttl m else (k, ts) ∷ sweep now ttl m

unfoldable pub cleanup : Time → Dedup → Dedup
cleanup now d = record d { entries = sweep now d.ttl d.entries }

-- What the three writes append: the email, a zero byte, the client_order_id.
abbrev pub joined : String → String → String
joined email client_order_id = append email (append "\0" client_order_id)

module _ (E : Env) where
  unfoldable pub hash_key : String → String → String
  hash_key email client_order_id = E.sha256_hex (joined email client_order_id)

  unfoldable pub seen_or_add : String → String → Time → Dedup → Bool × Dedup
  seen_or_add email client_order_id now d = seen_or_add_key (hash_key email client_order_id) now d
