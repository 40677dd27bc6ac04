-- ===== src/Client/Probe.antt =====
-- One latency probe: `doProbe`, the assembly of foreignProbe's and selfProbe's samples, and
-- `tlsRoundTrips` of probe.go.
--
-- The HTTP exchange is what RoundTrip and the reading of the body gave; the trace hooks have left
-- their readings of the clock, nanoseconds, or none where the hook did not fire.
pub mod Trace
pub mod Timely
use Prim.Native.String.{String}
use netquality.Prelude.{
  ℕ, ◌+◌, ◌≤◌, ◌≡◌, ◌↔◌, Bool, true, false, Option, none, some, ℤ, pos, ◌≤ℤ◌, ltb, ltb_ℤ, ◌==◌,
  sub64, arith, if◌then◌else◌,
}
use Prim.Native.Nat.{min}
use netquality.Engine.Samples.{Sample}

-- The body's length, and the error that reading it to its end gives.
pub record Response : Type 0 where
  pub status : ℕ
  -- -1 where it is not declared.
  pub content_length : ℤ
  pub body_length : ℕ
  pub read_error : Option String

pub data ProbeError : Type 0 where
  -- The request could not be made or sent, or the body not read.
  failed : String → ProbeError
  unexpected_status : ℕ → ProbeError
  -- errInvalidProbeSize, of a length that is declared, read, or nothing.
  invalid_size : ProbeError

abbrev max_probe_body_bytes : ℕ
max_probe_body_bytes = 10

-- What io.Copy counts of the body, which LimitReader cuts after one byte too many, and its error,
-- which is not seen once the limit is reached.
abbrev copied : Response → ℕ
copied r = min r.body_length (max_probe_body_bytes + 1)

-- none where the probe passes.
unfoldable pub check_response : Response → Option ProbeError
check_response r =
    if r.status == 200
    then if ltb_ℤ (pos max_probe_body_bytes) r.content_length
      then some invalid_size
      else if ltb max_probe_body_bytes (copied r)
      then some invalid_size
      else elim r.read_error [
        | some e ↦ some (failed e)
        | none ↦ if copied r == 0 then some invalid_size else none
      ]
    else some (unexpected_status r.status)

-- The request's outcome: an error, or its response.
pub data RoundTrip : Type 0 where
  refused : String → RoundTrip
  responded : Response → RoundTrip

unfoldable pub do_probe : RoundTrip → Option ProbeError
do_probe (refused e) = some (failed e)
do_probe (responded r) = check_response r

-- tls.VersionTLS13 is 0x0304.
unfoldable pub tls_round_trips : ℕ → ℤ
tls_round_trips version = if version == 772 then pos 1 else if version == 0 then pos 0 else pos 2

-- What the trace hooks have collected in probeTimes.
pub record ProbeTimes : Type 0 where
  pub sample : Sample
  pub dns_start : Option ℤ
  pub conn_start : Option ℤ
  pub tls_start : Option ℤ
  pub wrote : Option ℤ
  pub reused : Bool

abbrev pub written_at : ℤ → Option ℤ → ℤ
written_at start none = start
written_at start (some w) = w

-- The tail of foreignProbe, from the probe's start and end.
unfoldable pub foreign_sample : ProbeTimes → ℤ → ℤ → Sample
foreign_sample pt start end =
    let s : Sample = record pt.sample {
      total = sub64 end start;
      http = sub64 end (written_at start pt.wrote);
      staged = if pt.reused then false else true;
    } in
    if pt.reused
    then record s { dns = pos 0; connect = pos 0; tls = pos 0; tls_rtts = pos 0 }
    else s

unfoldable pub self_sample : Option ℤ → ℤ → ℤ → Sample
self_sample wrote start end = record {
  total = sub64 end start;
  dns = pos 0;
  connect = pos 0;
  tls = pos 0;
  tls_rtts = pos 0;
  ttfb = pos 0;
  http = sub64 end (written_at start wrote);
  staged = false;
}

-- A probe passes exactly when its response has status 200, declares no more than ten bytes, and its
-- body is of one to ten bytes that are read without an error.
pub check_response_iff :
    (r : Response)
    → (check_response r ≡ none) ↔ (
        (r.status ≡ 200)
        × (r.content_length ≤ℤ pos 10)
        × (1 ≤ r.body_length)
        × (r.body_length ≤ 10)
        × (r.read_error ≡ none))
unfolding check_response
check_response_iff r = ground arith
