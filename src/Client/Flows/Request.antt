-- ===== src/Client/Flows/Request.antt =====
-- One request of a load flow: `oneRequest` and `countingWriter` of load.go.
--
-- What http.NewRequest, the transport and the body give is an argument, and so are the hooks that ran. This is a
-- download's request; of an upload's, Upload is the body that is sent and Body the closing of the response.
use Prim.Native.String.{String}
use text.Mathlib.Text.{◌==◌ as str_eq}
use netquality.Prelude.{
  ℕ, ◌≡◌, refl, sym, ap, ◌∙◌, subst, ◌⊎◌, inl, inr, Bool, true, not, List, [], ◌∷◌, Option, none,
  some, ℤ, pos, add64, ◌==◌, arith, if◌then◌else◌, Bool-cases, Option-cases, Sum-cases, ◌≢◌,
}
use netquality.Client.Bytes.{ByteCounter, add, add_payload, add_total, add_probe, check_limit}
use netquality.Client.Flows.{Flow}

-- The hooks that oneRequest sets: a handshake, with whether it failed and the protocol agreed on, and a connection.
pub data Hook : Type 0 where
  tls_handshake_done : Bool → String → Hook
  got_conn : Hook

unfoldable pub run_hook : Hook → Flow → Flow
run_hook (tls_handshake_done failed negotiated) f =
    if failed
    then f
    else record f { proto = some (if str_eq negotiated "h2" then "HTTP/2.0" else "HTTP/1.1") }
run_hook got_conn f = record f { ready = true }

unfoldable pub run_hooks : List Hook → Flow → Flow
run_hooks [] f = f
run_hooks (h ∷ hs) f = run_hooks hs (run_hook h f)

-- The writes of io.Copy, and the error that ends it.
pub record Response : Type 0 where
  pub status : ℕ
  pub proto : String
  pub chunks : List ℕ
  pub read_error : Option String

pub record Exchange : Type 0 where
  pub new_request_error : Option String
  pub hooks : List Hook
  pub answer : String ⊎ Response

pub data RequestError : Type 0 where
  broken : String → RequestError
  unexpected_status : ℕ → RequestError

-- countingWriter, for each write.
unfoldable pub count_all : List ℕ → ByteCounter → ByteCounter
count_all [] c = c
count_all (n ∷ ns) c = count_all ns (add (pos n) c)

-- The flow and the counter when the request is over, how often the body of a download's response has been closed, and
-- the error.
pub record RequestEnd : Type 0 where
  pub flow : Flow
  pub counter : ByteCounter
  pub closes : ℕ
  pub error : Option RequestError

-- From the response on.
unfoldable pub receive : Response → Flow → ByteCounter → RequestEnd
receive resp f c =
    let known = record f { proto = some resp.proto } in
    if not (resp.status == 200)
    then record {
      flow = known;
      counter = c;
      closes = 1;
      error = some (unexpected_status resp.status);
    }
    else record {
      flow = known;
      counter = count_all resp.chunks c;
      closes = 1;
      error = elim resp.read_error [ none ↦ none | some err ↦ some (broken err) ];
    }

unfoldable pub one_request : Exchange → Flow → ByteCounter → RequestEnd
one_request x f c = elim x.new_request_error [
  | some err ↦ record { flow = f; counter = c; closes = 0; error = some (broken err) }
  | none ↦ elim x.answer [
    | inl err ↦ record {
      flow = run_hooks x.hooks f;
      counter = c;
      closes = 0;
      error = some (broken err);
    }
    | inr resp ↦ receive resp (run_hooks x.hooks f) c
  ]
]

abbrev sum64 : List ℕ → ℤ → ℤ
sum64 [] t = t
sum64 (n ∷ ns) t = sum64 ns (add64 t (pos n))

add-sums :
    (n : ℤ) (c : ByteCounter)
    → ((add n c).total ≡ add64 c.total n) × ((add n c).payload ≡ add64 c.payload n)
unfolding add add_probe add_payload add_total check_limit
add-sums n c = ground arith

count_all-sums :
    (ns : List ℕ) (c : ByteCounter)
    → ((count_all ns c).total ≡ sum64 ns c.total) × ((count_all ns c).payload ≡ sum64 ns c.payload)
unfolding count_all
count_all-sums [] c = (refl, refl)
count_all-sums (n ∷ ns) c =
    let (total, payload) = count_all-sums ns (add (pos n) c) in
    let (one_total, one_payload) = add-sums (pos n) c in
    (total ∙ ap (sum64 ns) one_total, payload ∙ ap (sum64 ns) one_payload)

-- A request without a response, because it could not be made, or because the transport failed: nothing is counted or
-- closed, and that error is the request's.
abbrev pub IsUnanswered : Exchange → Flow → ByteCounter → RequestEnd → Type 0
IsUnanswered x f c e =
    (e.closes ≡ 0)
    × (e.counter ≡ c)
    × (((err : String) × (x.new_request_error ≡ some err)
          × (e.flow ≡ f)
          × (e.error ≡ some (broken err)))
        ⊎ ((err : String) × (x.new_request_error ≡ none)
            × (x.answer ≡ inl err)
            × (e.flow ≡ run_hooks x.hooks f)
            × (e.error ≡ some (broken err))))

-- The error of a request, of that of its reading.
abbrev IsReadError : Option String → Option RequestError → Type 0
IsReadError none e = e ≡ none
IsReadError (some err) e = e ≡ some (broken err)

-- What a body of status 200 was worth.
abbrev IsReceived : Response → ByteCounter → RequestEnd → Type 0
IsReceived resp c e =
    (e.counter.total ≡ sum64 resp.chunks c.total)
    × (e.counter.payload ≡ sum64 resp.chunks c.payload)
    × IsReadError resp.read_error e.error

abbrev pub IsAnswered : Exchange → Flow → ByteCounter → RequestEnd → Type 0
IsAnswered x f c e =
    (resp : Response) × (x.new_request_error ≡ none)
    × (x.answer ≡ inr resp)
    × (e.closes ≡ 1)
    × (e.flow ≡ record (run_hooks x.hooks f) { proto = some resp.proto })
    × (((resp.status ≡ 200) × IsReceived resp c e)
        ⊎ ((resp.status ≢ 200)
            × (e.counter ≡ c)
            × (e.error ≡ some (unexpected_status resp.status))))

read_error_lem :
    (o : Option String)
    → IsReadError o
        (let e : Option RequestError = elim o [ none ↦ none | some err ↦ some (broken err) ] in e)
read_error_lem none = refl
read_error_lem (some err) = refl

receive-IsAnswered :
    (x : Exchange) (resp : Response) (f : Flow) (c : ByteCounter)
    → x.new_request_error ≡ none
    → x.answer ≡ inr resp
    → IsAnswered x f c (receive resp (run_hooks x.hooks f) c)
unfolding receive
receive-IsAnswered x resp f c made got = elim (Bool-cases (resp.status == 200)) [
  | inl ok ↦
      let (total, payload) = count_all-sums resp.chunks c in
      (
        resp,
        made,
        got,
        ground arith,
        rw ok refl,
        inl (ground arith, rw ok (total, payload, read_error_lem resp.read_error)),
      )
  | inr bad ↦
      (resp, made, got, ground arith, rw bad refl, inr (ground arith, ground arith, ground arith))
]

-- A download's request has no response only where it could not be made or the transport failed: then nothing is
-- counted or closed, and that is its error. Else its response's body is closed once, and the flow is what the hooks
-- made of it, with the response's protocol. Of status 200, all that was read of the body is in both sums, and the error
-- is that of the reading, if any; of any other, nothing is counted and the status is the error.
pub one_request_cases :
    (x : Exchange) (f : Flow) (c : ByteCounter)
    → IsUnanswered x f c (one_request x f c) ⊎ IsAnswered x f c (one_request x f c)
unfolding one_request
one_request_cases x f c = elim (Option-cases x.new_request_error) [
  | inr (err, bad) ↦ rw (one_request, bad) (inl (refl, refl, inl (err, refl, refl, refl)))
  | inl made ↦ elim (Sum-cases x.answer) [
    | inl (err, refused) ↦
        rw (one_request, made, refused) (inl (refl, refl, inr (err, refl, refl, refl, refl)))
    | inr (resp, got) ↦
        let same : one_request x f c ≡ receive resp (run_hooks x.hooks f) c =
          rw (one_request, made, got) in
        inr (subst (IsAnswered x f c) (sym same) (receive-IsAnswered x resp f c made got))
  ]
]
