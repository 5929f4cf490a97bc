-- ===== src/CheckOrder/Concurrent/Keys.antt =====
-- One idempotency key in the hands of several concurrent calls.
use mathlib.Core.Path.{subst}
use kite_mcp_riskguard.Prelude.{
  ℕ, Bool, Option, ◌+◌, ◌<◌, ◌≤◌, ◌≡◌, ◌≢◌, ◌⊎◌, refl, sym, ap, ◌∙◌, true, false, some, none,
  String, ◌==◌, eq_iff, arith, Bool-cases, Option-cases, inl, inr,
}
use kite_mcp_riskguard.Prelude.Dict.{lookup, lookup-insert, lookup-insert_self}
use kite_mcp_riskguard.Env.{Env, Time}
use kite_mcp_riskguard.Model.{CheckResult, OrderCheckRequest, Dedup, State, Reading}
use kite_mcp_riskguard.Dedup.{seen_or_add_key, seen_or_add, hash_key}
use kite_mcp_riskguard.Checks.Rates.{check_client_order_id_duplicate}
use kite_mcp_riskguard.Chain.{Eval, result}
use kite_mcp_riskguard.Builtin.{client_order_id_dup_check}
pub mod Moves
pub mod Once

-- The instants of the clock of Dedup that are considered: less than the time to live after `since`.
abbrev pub InTime : Time → ℕ → Reading → Type 0
InTime since ttl now = (since ≤ now.dedup_clock) × (now.dedup_clock < since + ttl)

module _ (k : String) (since : Time) (ttl : ℕ) where
  abbrev pub Holds : Dedup → Type 0
  Holds d = (t : Time) × (d.ttl ≡ ttl) × (lookup k d.entries ≡ some t) × (since ≤ t)

  Holds-seen_or_add_key :
      (j : String) (now : Time) (d : Dedup)
      → since ≤ now
      → Holds d
      → Holds (seen_or_add_key j now d).1
  unfolding seen_or_add_key
  Holds-seen_or_add_key j now d le (t, same, found, since_le) =
      elim (Bool-cases (seen_or_add_key j now d).0) [
        | inl seen ↦ (t, ground arith, ground arith, since_le)
        | inr fresh ↦ (elim (Bool-cases (j == k)) [
          | inl own ↦ (now, ground arith, ground (arith, lookup-insert k j now d.entries), le)
          | inr other ↦ (t, ground arith, ground (arith, lookup-insert k j now d.entries), since_le)
        ])
      ]

  held-seen :
      (now : Time) (d : Dedup) → now < since + ttl → Holds d → (seen_or_add_key k now d).0 ≡ true
  unfolding seen_or_add_key
  held-seen now d lt (t, same, found, since_le) = ground arith

  new-Holds :
      (now : Time) (d : Dedup)
      → since ≤ now
      → d.ttl ≡ ttl
      → (seen_or_add_key k now d).0 ≡ false
      → Holds (seen_or_add_key k now d).1
  unfolding seen_or_add_key
  new-Holds now d le same fresh =
      (now, ground arith, ground (arith, lookup-insert_self k now d.entries), le)

module _ (E : Env) (k : String) (since : Time) (ttl : ℕ) where
  -- The guard has a Dedup of that time to live; and one in which the key was accepted not before `since`.
  abbrev pub HasTtl : Option Dedup → Type 0
  HasTtl o = (d : Dedup) × (o ≡ some d) × (d.ttl ≡ ttl)

  abbrev pub Held : Option Dedup → Type 0
  Held o = (d : Dedup) × (o ≡ some d) × Holds k since ttl d

  -- The request has the key.
  abbrev pub IsKeyed : OrderCheckRequest E → Type 0
  IsKeyed req =
      ((req.client_order_id == "") ≡ false)
      × (hash_key E (E.to_lower req.email) req.client_order_id ≡ k)

  module _ (req : OrderCheckRequest E) (now : Reading) (st : State E) where
    abbrev answered : Eval × State E
    answered = (client_order_id_dup_check E).evaluate req now st

    abbrev tried : Dedup → Bool × Dedup
    tried d = seen_or_add E (E.to_lower req.email) req.client_order_id now.dedup_clock d

    pub answered-HasTtl : HasTtl st.dedup → HasTtl answered.1.dedup
    unfolding check_client_order_id_duplicate seen_or_add seen_or_add_key
    answered-HasTtl (d, e, same) = elim (Bool-cases (req.client_order_id == "")) [
      | inl without ↦ (d, ground arith, same)
      | inr with_ ↦ ((tried d).1, ground arith, ground arith)
    ]

    pub answered-Held : InTime since ttl now → Held st.dedup → Held answered.1.dedup
    unfolding check_client_order_id_duplicate seen_or_add
    answered-Held (le, lt) (d, e, h) = elim (Bool-cases (req.client_order_id == "")) [
      | inl without ↦ (d, ground arith, h)
      | inr with_ ↦
          ((tried d).1, ground arith, Holds-seen_or_add_key k since ttl _ now.dedup_clock d le h)
    ]

    module _ (keyed : IsKeyed req) (r : CheckResult) (returned_ : answered.0 ≡ result r)
        (ok : r.allowed ≡ true) where
      unseen : (d : Dedup) → st.dedup ≡ some d → (tried d).0 ≡ false
      unfolding check_client_order_id_duplicate
      unseen d e = ground (arith, keyed)

      unseen_key : (d : Dedup) → st.dedup ≡ some d → (seen_or_add_key k now.dedup_clock d).0 ≡ false
      unfolding seen_or_add
      unseen_key d e =
          subst (λ j. (seen_or_add_key j now.dedup_clock d).0 ≡ false) keyed.1 (unseen d e)

      pub allowed-Held : InTime since ttl now → HasTtl st.dedup → Held answered.1.dedup
      unfolding check_client_order_id_duplicate seen_or_add
      allowed-Held (le, lt) (d, e, same) = (
        (tried d).1,
        ground (arith, keyed),
        subst (λ j. Holds k since ttl (seen_or_add_key j now.dedup_clock d).1) (sym keyed.1)
            (new-Holds k since ttl now.dedup_clock d le same (unseen_key d e)),
      )

      pub allowed-ne_Held : InTime since ttl now → ¬ Held st.dedup
      allowed-ne_Held (le, lt) (d, e, h) =
          let seen = held-seen k since ttl now.dedup_clock d lt h in
          let fresh = unseen_key d e in cc
