-- ===== src/Subprocess/Concurrent/Sequential/Launching.antt =====
-- SubprocessCheck.launchLocked as a step.
use Prim.Native.String.{◌++◌ as append}
use kite_mcp_riskguard.Prelude.{
  ℕ, suc, ◌≡◌, ◌⊎◌, refl, sym, ap, ◌∙◌, Bool, true, false, none, some, String, arith, Option-cases,
  inl, inr,
}
use kite_mcp_riskguard.Env.{Env}
use kite_mcp_riskguard.Checkrpc.Plugin.{dispense_key}
use kite_mcp_riskguard.Subprocess.{
  Host, Result, ok, error, SubprocessCheck, client_config, launch_locked,
}
use kite_mcp_riskguard.Subprocess.Concurrent.{update, launched, launch_failed}
use kite_mcp_riskguard.Subprocess.Concurrent.Sequential.{Numbers, Launches, view, number_of}

update_twice : (f : ℕ → Bool) (n : ℕ) (b : Bool) → f n ≡ false → update (update f n b) n false ≡ f
update_twice f n b dead = λ i j. (pointwise j) i
  where
    pointwise : (j : ℕ) → update (update f n b) n false j ≡ f j
    pointwise j = ground arith

update_dead : (f : ℕ → Bool) (n : ℕ) → f n ≡ false → update f n false ≡ f
update_dead f n dead = λ i j. (pointwise j) i
  where
    pointwise : (j : ℕ) → update f n false j ≡ f j
    pointwise j = ground arith

module _ (E : Env) (H : Host E.Float) (n : Numbers E H) (laws : Launches E H n) where
  Result-cases :
      {A : Type 0} (r : Result A) → ((err : String) × (r ≡ error err)) ⊎ ((a : A) × (r ≡ ok a))
  Result-cases (error err) = inl (err, refl)
  Result-cases (ok a) = inr (a, refl)

  -- A launch makes one process, which is cached, or none that is left.
  abbrev pub Outcomes : SubprocessCheck H → H.S → Type 0
  Outcomes s h =
      ((p : H.Proxy) × (c : H.Client) × (h' : H.S) × (launch_locked H s h
          ≡ (none, (record s { client = some c; proxy = some p }, h')))
        × (n.of_client c ≡ n.of_proxy p)
        × (n.of_proxy p ≡ n.next h)
        × (n.next h' ≡ suc (n.next h))
        × (n.alive h' ≡ update (n.alive h) (n.next h) true))
      ⊎ ((err : String) × (h' : H.S) × (launch_locked H s h ≡ (some err, (s, h')))
          × (n.next h' ≡ suc (n.next h))
          × (n.alive h' ≡ n.alive h))

  killed_again :
      (c : H.Client) (h h₃ : H.S)
      → n.of_client c ≡ n.next h
      → n.next h₃ ≡ suc (n.next h)
      → (n.alive h₃ ≡ n.alive h) ⊎ (n.alive h₃ ≡ update (n.alive h) (n.next h) true)
      → (n.next (H.kill c h₃) ≡ suc (n.next h)) × (n.alive (H.kill c h₃) ≡ n.alive h)
  killed_again c h h₃ mine next₃ alive₃ =
      let (same_next, dead) = laws.kills c h₃ in
      let at_number = dead ∙ ap (λ m. update (n.alive h₃) m false) mine in
      (
        same_next ∙ next₃,
        elim alive₃ [
          | inl same ↦
              at_number
              ∙ ap (λ f. update f (n.next h) false) same
              ∙ update_dead (n.alive h) (n.next h) (laws.unused h)
          | inr ran ↦
              at_number
              ∙ ap (λ f. update f (n.next h) false) ran
              ∙ update_twice (n.alive h) (n.next h) true (laws.unused h)
        ],
      )

  pub launch_locked-Outcomes : (s : SubprocessCheck H) (h : H.S) → Outcomes s h
  unfolding launch_locked
  launch_locked-Outcomes s h =
      let made = H.new_client (client_config s.cfg) h in
      let c = made.0 in
      let (mine, next₁, alive₁) = laws.creates (client_config s.cfg) h in
      let got = H.connect c made.1 in
      elim (Result-cases got.0) [
        | inl (err, e) ↦
            let (next₂, alive₂) =
              laws.fails_to_connect (client_config s.cfg) h err got.1 (λ i. (e i, got.1)) in
            let (next', alive') =
              killed_again c h got.1 mine (next₂ ∙ next₁) (inl (alive₂ ∙ alive₁)) in
            inr (append "launch subprocess: " err, H.kill c got.1, ground (arith, e), next', alive')
        | inr (conn, e) ↦
            let (conn_of, next₂, alive₂) =
              laws.connects (client_config s.cfg) h conn got.1 (λ i. (e i, got.1)) in
            let ran : n.alive got.1 ≡ update (n.alive h) (n.next h) true =
              alive₂
              ∙ ap (λ f. update f (n.of_client c) true) alive₁
              ∙ ap (λ m. update (n.alive h) m true) mine in
            let raw_got = H.dispense conn dispense_key got.1 in
            let (next₃, alive₃) = laws.dispensing conn got.1 in
            let again =
              killed_again c h raw_got.1 mine (next₃ ∙ next₂ ∙ next₁) (inr (alive₃ ∙ ran)) in
            (elim (Result-cases raw_got.0) [
              | inl (err, e') ↦ inr (
                append "dispense check proxy: " err,
                H.kill c raw_got.1,
                ground (arith, e, e'),
                again.0,
                again.1,
              )
              | inr (raw, e') ↦
                  let raw_of = laws.dispenses conn got.1 raw raw_got.1 (λ i. (e' i, raw_got.1)) in
                  (elim (Option-cases (H.as_check_rpc raw)) [
                    | inl wrong ↦ inr (
                      append "dispensed proxy is not checkrpc.CheckRPC (got "
                          (append (H.type_name raw) ")"),
                      H.kill c raw_got.1,
                      ground (arith, e, e', wrong),
                      again.0,
                      again.1,
                    )
                    | inr (p, right) ↦
                        let of_c : n.of_proxy p ≡ n.of_client c =
                          laws.casts raw p right ∙ raw_of ∙ conn_of in
                        inl (
                          p,
                          c,
                          raw_got.1,
                          ground (arith, e, e', right),
                          sym of_c,
                          of_c ∙ mine,
                          next₃ ∙ next₂ ∙ next₁,
                          alive₃ ∙ ran,
                        )
                  ])
            ])
      ]

  pub failed_view :
      (s : SubprocessCheck H) (h h' : H.S)
      → n.next h' ≡ suc (n.next h)
      → n.alive h' ≡ n.alive h
      → launch_failed (view E H n s h) ≡ view E H n s h'
  failed_view s h h' next' alive' = λ j. record {
    closed = s.closed;
    cached = number_of E H n s.proxy;
    next = (sym next') j;
    alive = (sym alive') j;
  }

  pub launched-view :
      (s s₁ : SubprocessCheck H) (h h' : H.S) (p : H.Proxy)
      → s₁.closed ≡ s.closed
      → s₁.proxy ≡ some p
      → n.of_proxy p ≡ n.next h
      → n.next h' ≡ suc (n.next h)
      → n.alive h' ≡ update (n.alive h) (n.next h) true
      → launched (view E H n s h) ≡ view E H n s₁ h'
  launched-view s s₁ h h' p closed' has_proxy_ first next' alive' = λ j. record {
    closed = (sym closed') j;
    cached = (sym (ap (number_of E H n) has_proxy_ ∙ ap some first)) j;
    next = (sym next') j;
    alive = (sym alive') j;
  }
