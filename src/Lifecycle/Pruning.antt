-- ===== src/Lifecycle/Pruning.antt =====
-- The pruning of a window of ascending instants.
use kite_mcp_riskguard.Prelude.{
  ℕ, suc, ◌-◌, ◌≤◌, ◌≡◌, refl, List, [], ◌∷◌, ◌++◌, arith, length, leb, ltb, All, if◌then◌else◌,
  Bool-cases, inl, inr,
}
use kite_mcp_riskguard.Env.{Time}
use kite_mcp_riskguard.Lifecycle.{prune}

-- The instants from the cutoff on.
abbrev pub count_since : Time → List Time → ℕ
count_since cutoff [] = 0
count_since cutoff (t ∷ ts) =
    if leb cutoff t then suc (count_since cutoff ts) else count_since cutoff ts

-- A minute before.
abbrev pub minute_ago : Time → Time
minute_ago now = now - 60000000000

-- In ascending order, and none before `from`.
abbrev pub AscendsFrom : Time → List Time → Type 0
AscendsFrom from [] = Unit
AscendsFrom from (t ∷ ts) = (from ≤ t) × AscendsFrom t ts

count_since-all :
    (cutoff from : Time) (ts : List Time)
    → cutoff ≤ from
    → AscendsFrom from ts
    → count_since cutoff ts ≡ length ts
count_since-all cutoff from [] le h = refl
count_since-all cutoff from (t ∷ ts) le (first, h) =
    ground (arith, count_since-all cutoff t ts (omega (arith, first)) h)

pub length-prune :
    (cutoff from : Time) (ts : List Time)
    → AscendsFrom from ts
    → length (prune cutoff ts) ≡ count_since cutoff ts
unfolding prune
length-prune cutoff from [] h = refl
length-prune cutoff from (t ∷ ts) (first, h) = elim (Bool-cases (ltb t cutoff)) [
  | inl old ↦ ground (arith, length-prune cutoff t ts h)
  | inr new ↦ ground (arith, count_since-all cutoff t ts (ground arith) h)
]

pub prune-prune :
    (early late : Time) (ts : List Time)
    → early ≤ late
    → prune late (prune early ts) ≡ prune late ts
unfolding prune
prune-prune early late [] le = refl
prune-prune early late (t ∷ ts) le = ground (arith, prune-prune early late ts le)

pub AscendsFrom-append :
    (from t : Time) (ts : List Time)
    → AscendsFrom from ts
    → from ≤ t
    → All (λ u. u ≤ t) ts
    → AscendsFrom from (ts ++ t ∷ [])
AscendsFrom-append from t [] h le bound = (le, tt)
AscendsFrom-append from t (u ∷ us) (first, h) le (b, bound) =
    (first, AscendsFrom-append u t us h b bound)
