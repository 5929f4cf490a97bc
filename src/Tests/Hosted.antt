-- ===== src/Tests/Hosted.antt =====
-- A host on which the example plugin runs, and guards with subprocess checks.
use kite_mcp_riskguard.Prelude.{ℕ, suc, refl, false, Option, none, some, [], String}
use kite_mcp_riskguard.Prelude.Int.{ℤ, pos}
use kite_mcp_riskguard.Env.{Env}
use kite_mcp_riskguard.Model.{OrderCheckRequest}
use kite_mcp_riskguard.Chain.{Guard}
use kite_mcp_riskguard.Builtin.{new_state}
use kite_mcp_riskguard.Checkrpc.{
  CheckResultWire, Handled, returns, dies, handle, RpcClient, client_evaluate, server_name,
  server_order, server_record_on_rejection, server_evaluate,
}
use kite_mcp_riskguard.Checkrpc.Proxy.{Transports, Serves}
use kite_mcp_riskguard.Subprocess.{
  SubprocessCheckConfig, Host, ok, SubprocessCheck, new_subprocess_check,
}
use kite_mcp_riskguard.Subprocess.Registration.{Heap}
use kite_mcp_riskguard.Subprocess.Concurrent.{update}
use kite_mcp_riskguard.Subprocess.Example.{example_evaluate, example_check}
use kite_mcp_riskguard.Tests.Sample.{sample, order}

abbrev sent_back : CheckResultWire → Handled CheckResultWire → CheckResultWire × Option String
sent_back reply (returns a none) = (a, none)
sent_back reply (returns a (some err)) = (reply, some err)
sent_back reply dies = (reply, some "connection is shut down")

-- A connection to the example plugin.
abbrev pub demo_rpc : RpcClient ℤ Unit
demo_rpc = record {
  call_string = λ m reply c. (("example_check", none), c);
  call_int = λ m reply c. ((pos 5000, none), c);
  call_bool = λ m reply c. ((false, none), c);
  call_evaluate = λ m req reply c. (sent_back reply (handle reply (example_evaluate req)), c);
}

sent_back-Transports :
    (reply : CheckResultWire) (h : Handled CheckResultWire) → Transports reply h (sent_back reply h)
sent_back-Transports reply (returns a none) = refl
sent_back-Transports reply (returns a (some err)) = refl
sent_back-Transports reply dies = ("connection is shut down", refl)

pub demo-Serves : Serves example_check demo_rpc (λ c. c)
unfolding server_name server_order server_record_on_rejection server_evaluate
demo-Serves = record {
  serves_name = λ c. (refl, refl);
  serves_order = λ c. (refl, refl);
  serves_record_on_rejection = λ c. (refl, refl);
  serves_evaluate = λ req c. (sent_back-Transports _ _, refl);
}

-- Processes are numbered; the state is the next number.
abbrev pub demo : Host ℤ
demo = record {
  S = ℕ;
  Client = ℕ;
  Conn = ℕ;
  Raw = ℕ;
  Proxy = ℕ;
  new_client = λ cfg n. (n, suc n);
  connect = λ c n. (ok c, n);
  dispense = λ c key n. (ok c, n);
  as_check_rpc = λ r. some r;
  type_name = λ r. "";
  kill = λ c n. n;
  evaluate = λ p w n. ((client_evaluate demo_rpc w tt).0, n);
  open_file = λ path n. ok path;
  sha256_hex_of = λ f n. ok f;
}

abbrev pub example_config : SubprocessCheckConfig
example_config = record {
  name = "example";
  order = pos 2500;
  record_on_rejection = false;
  executable = "/opt/riskguard-check-plugin";
  args = [];
}

abbrev pub idle_check : SubprocessCheck demo
idle_check = new_subprocess_check demo example_config

-- A world of processes and of the subprocess checks, each at its number.
abbrev pub Cells : Type 0
Cells = ℕ × ℕ × (ℕ → SubprocessCheck demo)

abbrev pub no_cells : Cells
no_cells = (0, 0, λ n. idle_check)

abbrev pub hosted : Env
hosted = record sample { World = Cells }

abbrev pub cells : Heap hosted demo
cells = record {
  Cell = ℕ;
  alloc = λ s (next, top, at). (top, (next, suc top, update at top s));
  load = λ c (next, top, at). at c;
  host = λ (next, top, at). next;
  store = λ c (s, n) (next, top, at). (n, top, update at c s);
}

abbrev pub hosted_order : OrderCheckRequest hosted
hosted_order = record {
  email = order.email;
  tool_name = order.tool_name;
  exchange = order.exchange;
  tradingsymbol = order.tradingsymbol;
  transaction_type = order.transaction_type;
  quantity = order.quantity;
  price = order.price;
  order_type = order.order_type;
  confirmed = order.confirmed;
  client_order_id = order.client_order_id;
  variety = order.variety;
}

-- A guard with no check yet.
abbrev pub bare_chain : Guard hosted
bare_chain = record { checks = []; state = new_state hosted no_cells }
