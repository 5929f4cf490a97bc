-- ===== src/Subprocess/Concurrent/Sequential.antt =====
-- A call of Evaluate of subprocess_check.go that runs alone, next to the steps of concurrent calls.
use kite_mcp_riskguard.Prelude.{
  ℕ, suc, ◌≡◌, ◌⊎◌, Bool, true, false, Option, none, some, List, String,
}
use kite_mcp_riskguard.Env.{Env}
use kite_mcp_riskguard.Model.{OrderCheckRequest}
use kite_mcp_riskguard.Checkrpc.{CheckResultWire}
use kite_mcp_riskguard.Subprocess.{Host, ok, error, SubprocessCheck, ClientConfig, wire_of}
use kite_mcp_riskguard.Checkrpc.Plugin.{dispense_key}
use kite_mcp_riskguard.Subprocess.Concurrent.{update, Shared}
pub mod Launching
pub mod Runs

module _ (E : Env) (H : Host E.Float) where
  -- The processes of a host by number: that of a client, and of what is reached through it; the next
  -- number, and which processes run.
  pub record Numbers : Type 0 where
    pub of_client : H.Client → ℕ
    pub of_conn : H.Conn → ℕ
    pub of_raw : H.Raw → ℕ
    pub of_proxy : H.Proxy → ℕ
    pub next : H.S → ℕ
    pub alive : H.S → ℕ → Bool

  -- go-plugin, as it documents itself: a new client has a process of its own, which runs once Client()
  -- has connected; Kill ends it; a call leaves the processes as they are, or its own process dies.
  pub record Launches (n : Numbers) : Type 0 where
    pub unused : (h : H.S) → n.alive h (n.next h) ≡ false
    pub creates :
        (x : ClientConfig E.Float) (h : H.S)
        → let (c, h') = H.new_client x h in
          (n.of_client c ≡ n.next h) × (n.next h' ≡ suc (n.next h)) × (n.alive h' ≡ n.alive h)
    pub connects :
        (x : ClientConfig E.Float) (h : H.S) (conn : H.Conn) (h' : H.S)
        → let (c, h₁) = H.new_client x h in
          H.connect c h₁ ≡ (ok conn, h')
          → (n.of_conn conn ≡ n.of_client c)
            × (n.next h' ≡ n.next h₁)
            × (n.alive h' ≡ update (n.alive h₁) (n.of_client c) true)
    pub fails_to_connect :
        (x : ClientConfig E.Float) (h : H.S) (err : String) (h' : H.S)
        → let (c, h₁) = H.new_client x h in
          H.connect c h₁ ≡ (error err, h') → (n.next h' ≡ n.next h₁) × (n.alive h' ≡ n.alive h₁)
    pub dispenses :
        (conn : H.Conn) (h : H.S) (raw : H.Raw) (h' : H.S)
        → H.dispense conn dispense_key h ≡ (ok raw, h')
        → (n.of_raw raw ≡ n.of_conn conn)
    pub dispensing :
        (conn : H.Conn) (h : H.S)
        → let (got, h') = H.dispense conn dispense_key h in
          (n.next h' ≡ n.next h) × (n.alive h' ≡ n.alive h)
    pub casts :
        (raw : H.Raw) (p : H.Proxy) → H.as_check_rpc raw ≡ some p → n.of_proxy p ≡ n.of_raw raw
    pub kills :
        (c : H.Client) (h : H.S)
        → (n.next (H.kill c h) ≡ n.next h)
          × (n.alive (H.kill c h) ≡ update (n.alive h) (n.of_client c) false)
    pub answering :
        (p : H.Proxy) (req : OrderCheckRequest E) (h : H.S) (resp : CheckResultWire) (h' : H.S)
        → H.evaluate p (wire_of E req) h ≡ ((resp, none), h')
        → (n.alive h (n.of_proxy p) ≡ true) × (n.next h' ≡ n.next h) × (n.alive h' ≡ n.alive h)
    pub failing :
        (p : H.Proxy) (req : OrderCheckRequest E) (h : H.S) (resp : CheckResultWire) (err : String)
        (h' : H.S)
        → H.evaluate p (wire_of E req) h ≡ ((resp, some err), h')
        → (n.next h' ≡ n.next h)
          × ((n.alive h' ≡ n.alive h) ⊎ (n.alive h' ≡ update (n.alive h) (n.of_proxy p) false))

  module _ (n : Numbers) where
    abbrev pub number_of : Option H.Proxy → Option ℕ
    number_of none = none
    number_of (some p) = some (n.of_proxy p)

    -- What goroutines share of a check.
    abbrev pub view : SubprocessCheck H → H.S → Shared
    view s h = record {
      closed = s.closed;
      cached = number_of s.proxy;
      next = n.next h;
      alive = n.alive h;
    }

    -- The cached client and proxy are of one process.
    abbrev pub Linked : Option H.Client → Option H.Proxy → Type 0
    Linked none none = Unit
    Linked (some c) (some p) = n.of_client c ≡ n.of_proxy p
    Linked _ _ = ⊥

    pub same_view :
        (s : SubprocessCheck H) (h h' : H.S)
        → n.next h' ≡ n.next h
        → n.alive h' ≡ n.alive h
        → view s h' ≡ view s h
    same_view s h h' e f =
        λ i. record { closed = s.closed; cached = number_of s.proxy; next = e i; alive = f i }
