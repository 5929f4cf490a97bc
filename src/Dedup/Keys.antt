-- ===== src/Dedup/Keys.antt =====
-- The digests of different submissions.
use mathlib.Core.Path.{ap₂}
use Prim.Native.Char.{code, nul}
use Prim.Native.String.{◌++◌ as append}
use text.Mathlib.TextLemmas.{nil-append, cons-append, cons-eq-cons}
use kite_mcp_riskguard.Prelude.{◌≡◌, ◌≢◌, refl, sym, ap, ◌∙◌, String}
use kite_mcp_riskguard.Env.{Env}
use kite_mcp_riskguard.Dedup.{joined, hash_key}

-- A text without the zero byte.
abbrev pub HasNoZero : String → Type 0
HasNoZero String.[] = Unit {0}
HasNoZero (String.◌∷◌ c s) = (code c ≢ 0) × HasNoZero s

append-zero : (k : String) → append "" (append "\0" k) ≡ String.◌∷◌ nul k
append-zero k = nil-append _ ∙ cons-append nul "" k ∙ ap (String.◌∷◌ nul) (nil-append k)

-- The zero byte ends the first of two joined texts.
joined_injective :
    (e e' k k' : String)
    → HasNoZero e
    → HasNoZero e'
    → joined e k ≡ joined e' k'
    → (e ≡ e') × (k ≡ k')
joined_injective String.[] String.[] k k' h h' q =
    (refl, (cons-eq-cons.0 (sym (append-zero k) ∙ q ∙ append-zero k')).1)
joined_injective String.[] (String.◌∷◌ d e') k k' h (p', h') q =
    absurd (p' (sym (ap code (cons-eq-cons.0 (sym (append-zero k) ∙ q ∙ cons-append d e' _)).0)))
joined_injective (String.◌∷◌ c e) String.[] k k' (p, h) h' q =
    absurd (p (ap code (cons-eq-cons.0 (sym (cons-append c e _) ∙ q ∙ append-zero k')).0))
joined_injective (String.◌∷◌ c e) (String.◌∷◌ d e') k k' (p, h) (p', h') q =
    let parts = cons-eq-cons.0 (sym (cons-append c e _) ∙ q ∙ cons-append d e' _) in
    let (tails, keys) = joined_injective e e' k k' h h' parts.1 in
    (ap₂ String.◌∷◌ parts.0 tails, keys)

module _ (E : Env) where
  -- If the digest tells the two joined texts apart, submissions of different users or of different
  -- client_order_ids have different keys; the emails hold no zero byte.
  hash_key_injective :
      (email email' id id' : String)
      → HasNoZero email
      → HasNoZero email'
      → (E.sha256_hex (joined email id) ≡ E.sha256_hex (joined email' id')
          → joined email id ≡ joined email' id')
      → hash_key E email id ≡ hash_key E email' id'
      → (email ≡ email') × (id ≡ id')
  unfolding hash_key
  hash_key_injective email email' id id' h h' no_collision q =
      joined_injective email email' id id' h h' (no_collision q)
