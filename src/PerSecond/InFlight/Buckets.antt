-- ===== src/PerSecond/InFlight/Buckets.antt =====
-- The bucket of a user, with a count up to some bound.
use kite_mcp_riskguard.Prelude.{
  ℕ, suc, ◌≤◌, ◌<◌, ◌≡◌, refl, Option, none, some, String, arith, if◌then◌else◌,
}
use kite_mcp_riskguard.Prelude.Int.{
  ℤ, pos, ◌≤ℤ◌, ◌<ℤ◌, pos_part, eqb_ℤ, eqb_ℤ_iff, ◌+ℤ◌, int64_small, two_63,
}
use kite_mcp_riskguard.Prelude.Dict.{Dict, lookup}
use kite_mcp_riskguard.Env.{Time}
use kite_mcp_riskguard.Calendar.{unix}
use kite_mcp_riskguard.Model.{PerSecondBucket}
use kite_mcp_riskguard.PerSecond.{bump, current_count}

-- The count of a bucket in a second.
abbrev pub spent : ℤ → Option PerSecondBucket → ℕ
spent s none = 0
spent s (some b) = if eqb_ℤ b.second s then pos_part b.count else 0

-- A bucket of no later second, with a positive count up to `m`.
abbrev pub IsFine : ℕ → ℤ → Option PerSecondBucket → Type 0
IsFine m s none = Unit {0}
IsFine m s (some b) = (b.second ≤ℤ s) × (pos 1 ≤ℤ b.count) × (b.count ≤ℤ pos m)

pub current_count_lem :
    (e : String) (m : ℕ) (now : Time) (c : Dict PerSecondBucket)
    → IsFine m (unix now) (lookup e c)
    → current_count e now c ≡ pos (spent (unix now) (lookup e c))
unfolding current_count
current_count_lem e m now c h = ground arith

pub bump_lem :
    (m : ℕ) (now : ℤ) (o : Option PerSecondBucket)
    → m < two_63
    → IsFine m now o
    → spent now o < m
    → IsFine m now (some (bump now o)) × (spent now (some (bump now o)) ≡ suc (spent now o))
unfolding ◌+ℤ◌
bump_lem m now none small h lt = ground (arith, eqb_ℤ_iff now now)
bump_lem m now (some b) small h lt =
    ground (arith, eqb_ℤ_iff b.second now, eqb_ℤ_iff now now, int64_small (b.count +ℤ pos 1))

pub IsFine-later :
    (m : ℕ) (s t : ℤ) (o : Option PerSecondBucket) → s ≤ℤ t → IsFine m s o → IsFine m t o
IsFine-later m s t none le h = tt
IsFine-later m s t (some b) le h = ground arith

pub spent_new :
    (m : ℕ) (s t : ℤ) (o : Option PerSecondBucket) → s <ℤ t → IsFine m s o → spent t o ≡ 0
spent_new m s t none lt h = refl
spent_new m s t (some b) lt h = ground (arith, eqb_ℤ_iff b.second t)

pub unix_mono : (t u : Time) → t ≤ u → unix t ≤ℤ unix u
unix_mono t u h = ground arith
