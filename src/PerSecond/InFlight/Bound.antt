-- ===== src/PerSecond/InFlight/Bound.antt =====
-- The count of a second, with at most `k` orders in flight.
use mathlib.Core.Path.{subst}
use kite_mcp_riskguard.Prelude.{
  ℕ, suc, ◌+◌, ◌≤◌, ◌<◌, ◌≡◌, ◌≢◌, refl, sym, ap, ◌∙◌, Bool, true, some, [], String, arith,
  if◌then◌else◌, Bool-cases, inl, inr,
}
use kite_mcp_riskguard.Prelude.Int.{ℤ, pos, ◌<ℤ◌, eqb_ℤ, eqb_ℤ_iff, ℤ_compare, two_63}
use kite_mcp_riskguard.Prelude.Dict.{Dict, lookup, lookup-insert_self, lookup-insert_ne}
use kite_mcp_riskguard.Env.{Env, Time}
use kite_mcp_riskguard.Calendar.{unix}
use kite_mcp_riskguard.Model.{PerSecondBucket, Reading}
use kite_mcp_riskguard.PerSecond.{
  bump, current_count, increment, check_per_second_rate, record_per_second_order,
}
use kite_mcp_riskguard.PerSecond.InFlight.{
  Flights, Move, waits, takes_off, records, fails, records_other, recorded_in, Runs, here, then_,
}
use kite_mcp_riskguard.PerSecond.InFlight.Buckets.{
  spent, IsFine, current_count_lem, bump_lem, IsFine-later, spent_new, unix_mono,
}

same_count : {m n : ℕ} → m ≡ 0 + n → n ≡ m
same_count h = omega arith

module _ (E : Env) (e : String) where
  -- What holds in every state of a run.
  record Invariant (k : ℕ) (s : ℤ) (y : Flights E e) (n : ℕ) : Type 0 where
    counter : Dict PerSecondBucket
    held : y.state.per_second ≡ some counter
    fine : IsFine (8 + k) (unix y.clock) (lookup e counter)
    room : spent (unix y.clock) (lookup e counter) + y.in_flight ≤ 8 + k
    few : y.in_flight ≤ k
    bounded : n ≤ 8 + k
    counted : unix y.clock ≡ s → n ≡ spent s (lookup e counter)
    not_yet : unix y.clock <ℤ s → n ≡ 0

  module _ (k : ℕ) (s : ℤ) (small : 8 + k < two_63) where
    start-Invariant :
        (x : Flights E e) → x.state.per_second ≡ some [] → x.in_flight ≡ 0 → Invariant k s x 0
    unfolding lookup
    start-Invariant x empty none_ = record {
      counter = [];
      held = empty;
      fine = tt;
      room = omega arith;
      few = omega arith;
      bounded = omega arith;
      counted = λ _. refl;
      not_yet = λ _. refl;
    }

    waits-Invariant :
        (y : Flights E e) (t : Time) (n : ℕ)
        → y.clock ≤ t
        → Invariant k s y n
        → Invariant k s (record y { clock = t }) n
    waits-Invariant y t n le i = elim (ℤ_compare (unix y.clock) (unix t)) [
      | inl (inl new_) ↦
          let b = lookup e i.counter in
          let nothing = spent_new (8 + k) (unix y.clock) (unix t) b new_ i.fine in
          record {
            counter = i.counter;
            held = i.held;
            fine = IsFine-later (8 + k) (unix y.clock) (unix t) b (unix_mono y.clock t le) i.fine;
            room = omega (arith, nothing, i.few);
            few = i.few;
            bounded = i.bounded;
            counted = λ at.
                i.not_yet (subst (λ x. unix y.clock <ℤ x) at new_)
                ∙ sym (subst (λ x. spent x b ≡ 0) at nothing);
            not_yet = λ early. i.not_yet (omega arith);
          }
      | inl (inr same) ↦ record {
        counter = i.counter;
        held = i.held;
        fine = subst (λ x. IsFine (8 + k) x (lookup e i.counter)) same i.fine;
        room = subst (λ x. spent x (lookup e i.counter) + y.in_flight ≤ 8 + k) same i.room;
        few = i.few;
        bounded = i.bounded;
        counted = λ at. i.counted (same ∙ at);
        not_yet = λ early. i.not_yet (subst (λ x. x <ℤ s) (sym same) early);
      }
      | inr back ↦ let mono = unix_mono y.clock t le in absurd (omega arith)
    ]

    records-Invariant :
        (y : Flights E e) (now : Reading) (n m f : ℕ)
        → now.clock ≡ y.clock
        → y.in_flight ≡ suc f
        → m ≡ (if eqb_ℤ (unix now.clock) s then 1 else 0) + n
        → Invariant k s y n
        → Invariant k s
            (record y { state = record_per_second_order E e now y.state; in_flight = f })
            m
    unfolding record_per_second_order increment
    records-Invariant y now n m f at flying more i =
        let b = lookup e i.counter in
        let c = increment e now.clock i.counter in
        let b' = some (bump (unix y.clock) b) in
        let found : lookup e c ≡ b' =
          lookup-insert_self e (bump (unix now.clock) b) i.counter
          ∙ ap (λ t. some (bump (unix t) b)) at in
        let second : unix now.clock ≡ unix y.clock = ap unix at in
        let (fine, counts) =
          bump_lem (8 + k) (unix y.clock) b small i.fine (omega (arith, i.room, flying)) in
        record {
          counter = c;
          held = ground (arith, i.held);
          fine = subst (λ o. IsFine (8 + k) (unix y.clock) o) (sym found) fine;
          room =
              subst (λ o. spent (unix y.clock) o + f ≤ 8 + k) (sym found)
                (omega (arith, counts, i.room, flying));
          few = omega (arith, i.few, flying);
          bounded = elim (Bool-cases (eqb_ℤ (unix now.clock) s)) [
            | inl hit ↦
                let now_s : unix y.clock ≡ s = sym second ∙ (eqb_ℤ_iff (unix now.clock) s).0 hit in
                let was = i.counted now_s in
                let room = subst (λ x. spent x b + y.in_flight ≤ 8 + k) now_s i.room in
                let one : m ≡ 1 + n = more ∙ ap (λ (x : Bool). (if x then 1 else 0) + n) hit in
                omega (arith, one, was, room, flying)
            | inr miss ↦
                let none_more : m ≡ 0 + n =
                  more ∙ ap (λ (x : Bool). (if x then 1 else 0) + n) miss in
                omega (arith, none_more, i.bounded)
          ];
          counted = λ now_s.
              let was = i.counted now_s in
              let one = (eqb_ℤ_iff (unix now.clock) s).1 (second ∙ now_s) in
              let up = subst (λ x. spent x b' ≡ suc (spent x b)) now_s counts in
              subst (λ o. m ≡ spent s o) (sym found) (ground (arith, one, was, up, more));
          not_yet = λ early.
              let none_ = i.not_yet early in
              ground (arith, eqb_ℤ_iff (unix now.clock) s, second, none_, more);
        }

    other-Invariant :
        (y : Flights E e) (u : String) (now : Reading) (n : ℕ)
        → u ≢ e
        → Invariant k s y n
        → Invariant k s (record y { state = record_per_second_order E u now y.state }) n
    unfolding record_per_second_order increment
    other-Invariant y u now n other i =
        let c = increment u now.clock i.counter in
        let same : lookup e c ≡ lookup e i.counter = lookup-insert_ne e u _ i.counter other in
        record {
          counter = c;
          held = ground (arith, i.held);
          fine = subst (λ b. IsFine (8 + k) (unix y.clock) b) (sym same) i.fine;
          room = subst (λ b. spent (unix y.clock) b + y.in_flight ≤ 8 + k) (sym same) i.room;
          few = i.few;
          bounded = i.bounded;
          counted = λ at. i.counted at ∙ ap (spent s) (sym same);
          not_yet = i.not_yet;
        }

    -- The orders in flight may change while the rest stays, if there is room.
    flying-Invariant :
        (y : Flights E e) (f n : ℕ)
        → f ≤ k
        → ((i : Invariant k s y n) → spent (unix y.clock) (lookup e i.counter) + f ≤ 8 + k)
        → Invariant k s y n
        → Invariant k s (record y { in_flight = f }) n
    flying-Invariant y f n few room i = record {
      counter = i.counter;
      held = i.held;
      fine = i.fine;
      room = room i;
      few = few;
      bounded = i.bounded;
      counted = i.counted;
      not_yet = i.not_yet;
    }

    checked-room :
        (y : Flights E e) (now : Reading) (n : ℕ)
        → now.clock ≡ y.clock
        → (check_per_second_rate E e now y.state).allowed ≡ true
        → suc y.in_flight ≤ k
        → (i : Invariant k s y n)
        → spent (unix y.clock) (lookup e i.counter) + suc y.in_flight ≤ 8 + k
    unfolding check_per_second_rate
    checked-room y now n at ok few i =
        let read = current_count_lem e (8 + k) y.clock i.counter i.fine in
        let read_now : current_count e now.clock i.counter
            ≡ pos (spent (unix y.clock) (lookup e i.counter)) =
          ap (λ t. current_count e t i.counter) at ∙ read in
        ground (arith, i.held, read_now)

    Move-Invariant :
        {y z : Flights E e} (move : Move E e y z) (n m : ℕ)
        → z.in_flight ≤ k
        → m ≡ recorded_in E e s move + n
        → Invariant k s y n
        → Invariant k s z m
    Move-Invariant {y} (waits t le) n m few more i =
        subst (Invariant k s _) (same_count more) (waits-Invariant y t n le i)
    Move-Invariant {y} (takes_off now at ok) n m few more i =
        subst (Invariant k s _) (same_count more)
          (flying-Invariant y (suc y.in_flight) n few (checked-room y now n at ok few) i)
    Move-Invariant {y} (records now {n = f} at flying) n m few more i =
        records-Invariant y now n m f at flying more i
    Move-Invariant {y} (fails {n = f} flying) n m few more i =
        subst (Invariant k s _) (same_count more)
          (flying-Invariant y f n few (λ j. omega (arith, j.room, flying)) i)
    Move-Invariant {y} (records_other u now other at) n m few more i =
        subst (Invariant k s _) (same_count more) (other-Invariant y u now n other i)

    Runs-Invariant :
        (x : Flights E e) {y : Flights E e} {n : ℕ}
        → x.state.per_second ≡ some []
        → x.in_flight ≡ 0
        → Runs E e k s x y n
        → Invariant k s y n
    Runs-Invariant x empty none_ here = start-Invariant x empty none_
    Runs-Invariant x empty none_ (then_ {n = n} {m = m} r move few more) =
        Move-Invariant move n m few more (Runs-Invariant x empty none_ r)

  -- With at most `k` orders of the user in flight at a time, at most `8 + k` are recorded in one second:
  -- nine where each is recorded before the next is checked, ten with two in flight. It starts from
  -- an empty counter with no order in flight; other users' orders, failed orders and waits may come
  -- between; the clock does not go back, and the count stays a 64-bit number.
  pub recorded-le :
      (k : ℕ) (s : ℤ) (x y : Flights E e) (n : ℕ)
      → 8 + k < two_63
      → x.state.per_second ≡ some []
      → x.in_flight ≡ 0
      → Runs E e k s x y n
      → n ≤ 8 + k
  recorded-le k s x y n small empty none_ r = (Runs-Invariant k s small x empty none_ r).bounded
