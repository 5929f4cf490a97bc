-- ===== src/Dedup/History.antt =====
-- `Dedup` against the history of the submissions that it accepted.
use kite_mcp_riskguard.Prelude.{
  ℕ, ◌≤◌, ◌≡◌, refl, ap, ◌∙◌, Bool, true, false, ◌&&◌, ◌||◌, Option, none, some, List, [], ◌∷◌,
  String, ◌==◌, eq_iff, arith, if◌then◌else◌, Bool-cases, inl, inr,
}
use kite_mcp_riskguard.Prelude.Int.{ℤ, pos, pos_part, leb_ℤ}
use kite_mcp_riskguard.Prelude.Dict.{Dict, lookup, insert, lookup-insert}
use kite_mcp_riskguard.Env.{Time}
use kite_mcp_riskguard.Model.{Dedup}
use kite_mcp_riskguard.Dedup.{default_dedup_ttl, new_dedup, within, seen_or_add_key, sweep, cleanup}

-- Each key is held once.
abbrev IsDistinct : Dict Time → Type 0
IsDistinct [] = Unit {0}
IsDistinct ((k, ts) ∷ m) = (lookup k m ≡ none) × IsDistinct m

insert-IsDistinct :
    (k : String) (v : Time) (m : Dict Time) → IsDistinct m → IsDistinct (insert k v m)
unfolding insert lookup
insert-IsDistinct k v [] h = (refl, tt)
insert-IsDistinct k v ((j, w) ∷ m) (fresh, h) =
    ground (arith, insert-IsDistinct k v m h, lookup-insert j k v m, eq_iff j k, eq_iff k j)

lookup-sweep-none :
    (now : Time) (ttl : ℕ) (k : String) (m : Dict Time)
    → lookup k m ≡ none
    → lookup k (sweep now ttl m) ≡ none
unfolding lookup sweep
lookup-sweep-none now ttl k [] h = refl
lookup-sweep-none now ttl k ((j, ts) ∷ m) h =
    ground (arith, eq_iff j k, lookup-sweep-none now ttl k m)

sweep-IsDistinct :
    (now : Time) (ttl : ℕ) (m : Dict Time) → IsDistinct m → IsDistinct (sweep now ttl m)
unfolding sweep
sweep-IsDistinct now ttl [] h = tt
sweep-IsDistinct now ttl ((j, ts) ∷ m) (fresh, h) =
    ground (arith, sweep-IsDistinct now ttl m h, lookup-sweep-none now ttl j m)

-- Whether the map holds the key with an instant that is still within the time to live.
abbrev recently_of : ℕ → Time → Option Time → Bool
recently_of ttl now none = false
recently_of ttl now (some ts) = within now ts ttl

within-earlier :
    (now u ts : Time) (ttl : ℕ) → now ≤ u → within u ts ttl ≡ true → within now ts ttl ≡ true
within-earlier now u ts ttl le h = ground arith

recently-sweep :
    (now u : Time) (ttl : ℕ) (k : String) (m : Dict Time)
    → IsDistinct m
    → now ≤ u
    → recently_of ttl u (lookup k (sweep now ttl m)) ≡ recently_of ttl u (lookup k m)
unfolding sweep lookup
recently-sweep now u ttl k [] h le = refl
recently-sweep now u ttl k ((j, ts) ∷ m) (fresh, h) le = elim (Bool-cases (j == k)) [
  | inl same ↦
      let gone = lookup-sweep-none now ttl k m in
      ground (arith, eq_iff j k, gone, within-earlier now u ts ttl le)
  | inr other ↦ ground (arith, recently-sweep now u ttl k m h le)
]

-- What happens to a `Dedup`, with the clock's reading: a submission of a hashed key, or a cleanup.
pub data Use : Type 0 where
  submit : String → Time → Use
  clean : Time → Use

abbrev pub time_of : Use → Time
time_of (submit k t) = t
time_of (clean t) = t

abbrev pub IsAscending : Time → List Use → Type 0
IsAscending t [] = Unit {0}
IsAscending t (u ∷ us) = (t ≤ time_of u) × IsAscending (time_of u) us

-- The answers of SeenOrAdd to the submissions, one after another.
unfoldable pub answers : List Use → Dedup → List Bool
answers [] d = []
answers (submit k t ∷ us) d = let (seen, d') = seen_or_add_key k t d in seen ∷ answers us d'
answers (clean t ∷ us) d = answers us (cleanup t d)

-- The specification: the log of the submissions accepted so far, and no map. A submission is a
-- duplicate if the log holds the key at an instant within the time to live.
abbrev pub logged : ℕ → String → Time → List (String × Time) → Bool
logged ttl k now [] = false
logged ttl k now ((j, ts) ∷ log) = j == k && within now ts ttl || logged ttl k now log

unfoldable pub verdicts : ℕ → List Use → List (String × Time) → List Bool
verdicts ttl [] log = []
verdicts ttl (submit k t ∷ us) log =
    let seen = logged ttl k t log in seen ∷ verdicts ttl us (if seen then log else (k, t) ∷ log)
verdicts ttl (clean t ∷ us) log = verdicts ttl us log

logged-earlier :
    (ttl : ℕ) (k : String) (now u : Time) (log : List (String × Time))
    → now ≤ u
    → logged ttl k u log ≡ true
    → logged ttl k now log ≡ true
logged-earlier ttl k now u [] le h = h
logged-earlier ttl k now u ((j, ts) ∷ log) le h =
    ground (arith, within-earlier now u ts ttl le, logged-earlier ttl k now u log le)

-- From the instant `t` on, the map and the log give the same answers.
abbrev Agrees : Time → Dedup → List (String × Time) → Type 0
Agrees t d log =
    IsDistinct d.entries
    × ((k : String) (u : Time)
        → t ≤ u
        → recently_of d.ttl u (lookup k d.entries) ≡ logged d.ttl k u log)

-- An accepted submission enters the map and the log.
Agrees-add :
    (t now : Time) (k : String) (d : Dedup) (log : List (String × Time))
    → t ≤ now
    → logged d.ttl k now log ≡ false
    → Agrees t d log
    → Agrees now (record d { entries = insert k now d.entries }) ((k, now) ∷ log)
Agrees-add t now k d log le new (distinct, same) = (
  insert-IsDistinct k now d.entries distinct,
  λ j u later. ground (
    arith,
    lookup-insert j k now d.entries,
    same j u (omega arith),
    logged-earlier d.ttl j now u log later,
    eq_iff k j,
  ),
)

seen_or_add_key_lem :
    (k : String) (now : Time) (d : Dedup)
    → seen_or_add_key k now d ≡ (
        let seen = recently_of d.ttl now (lookup k d.entries) in
        (seen, if seen then d else record d { entries = insert k now d.entries }))
unfolding seen_or_add_key
seen_or_add_key_lem k now d = ground arith

answers-verdicts :
    (us : List Use) (t : Time) (d : Dedup) (log : List (String × Time))
    → IsAscending t us
    → Agrees t d log
    → answers us d ≡ verdicts d.ttl us log
unfolding answers verdicts cleanup
answers-verdicts [] t d log h a = refl
answers-verdicts (clean now ∷ us) t d log (le, h) (distinct, same) =
    answers-verdicts us now (cleanup now d) log h (
      sweep-IsDistinct now d.ttl d.entries distinct,
      λ k u later. recently-sweep now u d.ttl k d.entries distinct later ∙ same k u (omega arith),
    )
answers-verdicts (submit k now ∷ us) t d log (le, h) a =
    rw (seen_or_add_key_lem k now d, a.1 k now le)
      (elim (Bool-cases (logged d.ttl k now log)) [
        | inl seen ↦ rw seen (
            ap (λ l. true ∷ l)
              (answers-verdicts us now d log h (a.0, λ j u later. a.1 j u (omega arith))))
        | inr new ↦ rw new (
            ap (λ l. false ∷ l)
              (answers-verdicts us now (record d { entries = insert k now d.entries })
                ((k, now) ∷ log) h (Agrees-add t now k d log le new a)))
      ])

-- Refinement: over any submissions and cleanups at instants that do not go back, a new Dedup answers
-- as the log does. So a submission is a duplicate exactly if one of the same key was accepted less
-- than the time to live before, and cleanups change no answer. A time to live of zero or less stands
-- for fifteen minutes.
pub new_dedup-refines :
    (ttl : ℤ) (us : List Use)
    → IsAscending 0 us
    → answers us (new_dedup ttl)
      ≡ verdicts (if leb_ℤ ttl (pos 0) then default_dedup_ttl else pos_part ttl) us []
unfolding new_dedup lookup
new_dedup-refines ttl us h = answers-verdicts us 0 (new_dedup ttl) [] h (tt, λ k u le. refl)
