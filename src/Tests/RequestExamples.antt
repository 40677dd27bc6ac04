-- ===== src/Tests/RequestExamples.antt =====
-- The theorems on requests, dials, load phases and certificates at a run of each.
use Prim.Native.String.{String, ◌++◌ as str_append}
use text.Mathlib.Text.{◌==◌ as str_eq}
use netquality.Prelude.{
  ap, ℕ, ◌+◌, ◌*◌, ◌^◌, ◌≤◌, ◌≡◌, refl, ◌⊎◌, inl, inr, true, false, List, [], ◌∷◌, Option, none,
  some, pos, ◌≤ℤ◌, length, arith, if◌then◌else◌, sym,
}
use netquality.Float.Micro.{Micro, micro_float}
use netquality.Engine.Params.{default_params, with_defaults}
use netquality.Engine.Samples.{Sample}
use netquality.Server.Sign.{Time, after}
use netquality.Server.Certificate.{Template, Certificate, template, self_signed_cert}
use netquality.Server.Certificate.Names.{written, IsFailed, IsFor, self_signed_cert-IsFor}
use netquality.Client.Bytes.{new_counter}
use netquality.Client.Flows.{Flow}
use netquality.Client.Flows.Body.{
  returned, Reach, here, next, ctx_ends, starts, copy_ends, is_late, closes_first, signals, joins,
  signalled, IsEnding, Reach-IsEnding,
}
use netquality.Client.Flows.Request.{
  Exchange, tls_handshake_done, got_conn, one_request, IsUnanswered, IsAnswered, one_request_cases,
}
use netquality.Client.Proxy.{TransportFactory, dial_address}
use netquality.Client.Proxy.Dial.{
  Connection, Dialled, dial, dial_tls, file, IsTarget, IsFiled, dial-IsTracked,
}
use netquality.Client.Stop.{flow_error, deadline_exceeded}
use netquality.Client.LoadPhase.Teardown.{Course}
use netquality.Client.LoadPhase.{
  flow_broke, stop_called, Event, probed, counted, hooked, ticked, ctx_done, begin, handle_all,
}
use netquality.Client.LoadPhase.Steps.{IsPhase, handle_all-IsPhase}
use netquality.Client.LoadPhase.Grown.{IsNumbered}

-- The context ends first, and the callback closes the body before the deferred function runs.
joined : Reach 7 (record { ctx_done = true; main = returned; callback = signalled; closes = 1 })
joined =
    next
      (next
        (next
          (next (next (next (next here (ctx_ends refl)) (starts refl refl)) (closes_first refl))
            (copy_ends refl))
          (is_late refl (λ e. cc)))
        (signals refl))
      (joins refl refl)

Reach-IsEnding_example :
    (7 ≤ 7)
    × IsEnding (record { ctx_done = true; main = returned; callback = signalled; closes = 1 })
Reach-IsEnding_example = Reach-IsEnding joined

abbrev flow : Flow
flow = record { id = 0; ready = false; proto = none }

abbrev exchange : Exchange
exchange = record {
  new_request_error = none;
  hooks = tls_handshake_done false "h2" ∷ got_conn ∷ [];
  answer = inr (record {
    status = 200;
    proto = "HTTP/2.0";
    chunks = 4096 ∷ 1000 ∷ [];
    read_error = some "reset";
  });
}

one_request_cases_example :
    let e = one_request exchange flow (new_counter (pos 0)) in
    IsUnanswered exchange flow (new_counter (pos 0)) e
    ⊎ IsAnswered exchange flow (new_counter (pos 0)) e
one_request_cases_example = one_request_cases exchange flow (new_counter (pos 0))

abbrev split : String → Option (String × String)
split s =
    if str_eq s "nq.example:443"
    then some ("nq.example", "443")
    else if str_eq s "192.0.2.7:443"
    then some ("192.0.2.7", "443")
    else none

abbrev join : String → String → String
join h p = str_append h (str_append ":" p)

abbrev factory : TransportFactory
factory = record {
  url_host = "nq.example";
  url_host_port = "nq.example:443";
  test_endpoint = "edge.example";
  base = none;
  custom_tls = false;
}

abbrev connection : Connection
connection = record { id = 3; remote_addr = some "192.0.2.7:443"; local_addr = none }

abbrev no_dials : Dialled
no_dials = record {
  remote = record { stores = 0; addrs = [] };
  local = record { stores = 0; addrs = [] };
  owned = record { closed = false; conns = [] };
}

abbrev inner : String → String ⊎ Connection
inner addr = inr connection

dial-IsTracked_example :
    let e = dial split join factory inner "nq.example:443" no_dials in
    ((target : String) × IsTarget split join factory "nq.example:443" target
      × (inner target ≡ inr connection))
    × IsFiled split join connection e
unfolding dial dial_tls dial_address file
dial-IsTracked_example =
    dial-IsTracked split join factory inner "nq.example:443" no_dials connection refl

abbrev probe : Sample
probe = record {
  total = pos 30_000_000;
  dns = pos 0;
  connect = pos 10_000_000;
  tls = pos 10_000_000;
  tls_rtts = pos 1;
  ttfb = pos 9_000_000;
  http = pos 10_000_000;
  staged = true;
}

abbrev events : List Event
events =
    hooked 0 got_conn
    ∷ probed false probe
    ∷ counted (pos 500_000)
    ∷ ticked (pos (2 * 10 ^ 9))
    ∷ probed true probe
    ∷ counted (pos 900_000)
    ∷ ticked (pos (3 * 10 ^ 9))
    ∷ ctx_done
    ∷ []

handle_all-IsPhase_example :
    let s =
      handle_all
        (pos (10 ^ 9))
        events
        (begin {F = Micro} default_params (pos 16) (pos 0) (pos (10 ^ 9))) in
    IsPhase default_params (pos 16) s
    × IsNumbered 0 s.flows
    × (s.intervals ≡ s.engine.intervals)
    × (1 ≤ length s.flows)
    × (pos (length s.flows) ≤ℤ pos 16)
unfolding with_defaults
handle_all-IsPhase_example =
    handle_all-IsPhase default_params (pos 16) (omega arith) (omega arith) (omega arith)
      (pos (10 ^ 9)) (pos 0) (pos (10 ^ 9)) events

-- The phase runs out of time, and a flow fails before all goroutines have ended.
abbrev pub course : Course
course = record {
  start = pos (10 ^ 9);
  events = events;
  ctx_error = none;
  phase_ctx_error = some deadline_exceeded;
  late =
      probed false probe ∷ counted (pos 1_000) ∷ flow_broke "reset" ∷ stop_called flow_error ∷ [];
  end = pos (4 * 10 ^ 9);
}

-- An address is a number here.
abbrev parse_ip : String → Option ℕ
parse_ip s = if str_eq s "192.0.2.7" then some 7 else none

abbrev noon : Time
noon = record { sec = pos (62_135_596_800 + 1_700_000_000); nsec = 5 }

abbrev hosts : List String
hosts = "nq.local" ∷ "192.0.2.7" ∷ "" ∷ []

abbrev later_on : Time
later_on = record { sec = pos (62_135_596_800 + 1_710_000_000); nsec = 7 }

-- An address in its shortest form is a larger number.
abbrev short : ℕ → ℕ
short ip = ip + 100

abbrev signs : Template ℕ → String ⊎ Template ℕ
signs t = inr t

abbrev reads : Template ℕ → String ⊎ Template ℕ
reads t = inr (written short t)

reads-written : (t der : Template ℕ) → signs t ≡ inr der → reads der ≡ inr (written short t)
reads-written t der e =
    let same : t ≡ der = ground arith in ap (λ u. inr (written short u)) (sym same)

self_signed_cert-IsFor_example :
    let made = self_signed_cert parse_ip none none signs reads 1 6 noon noon hosts in
    ((err : String) × (made ≡ inl err)
      × IsFailed none none (signs (template parse_ip 1 6 noon noon hosts)) err)
    ⊎ ((cert : Certificate ℕ (Template ℕ)) × (made ≡ inr cert)
        × IsFor parse_ip short 1 6 later_on hosts cert.leaf
        × (signs (template parse_ip 1 6 noon noon hosts) ≡ inr cert.der)
        × (reads cert.der ≡ inr cert.leaf))
unfolding after netquality.Prelude.◌+ℤ◌
self_signed_cert-IsFor_example =
    self_signed_cert-IsFor parse_ip short none none signs reads 1 6 noon noon later_on hosts
      reads-written (omega arith) (omega arith) (omega arith) (omega arith) refl (omega arith)
