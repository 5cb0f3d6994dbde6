-- ===== src/FakeProvider/Serving.antt =====
-- A network that loses nothing: every request of the client is handled and answered.
use Prim.Native.String.{◌++◌}
use foip_operator.Prelude.{
  pos, ltb_ℤ, String, Bool-cases, Option, none, ◌∷◌, inl, inr, ◌≡◌, refl, ◌∙◌,
}
use foip_operator.Netcup.{
  Web, Client, Memory, Trace, Method, send, Request, value, exchange, read_token, keep_token,
  token_request, refresh, token, perform, request_for, method_text, called, read_clock,
}
use foip_operator.Netcup.Growing.{After, token-Grows}
use foip_operator.FakeProvider.{Provider, Served, token_reply, write_json}
use foip_operator.FakeProvider.Hosting.{
  Network, delivered, respond, wire, provider_after-send, Speaks,
}
use foip_operator.FakeProvider.Effects.{web, behind, token-Keeps, respond-token}

-- Requests arrive and are answered, none is refused, and the context stays open.
pub record Reliable (net : Network) (base : Web) : Type 0 where
  pub delivers : (t : Trace) (r : Request) → net.delivery t r ≡ delivered
  pub accepts : (r : Request) → base.refuse r ≡ none
  pub passes : (t : Trace) → base.pause t ≡ none

module _ (net : Network) (base : Web) (initial : Provider) (client : Client)
    (speaks : Speaks net base client) (reliable : Reliable net base) where
  abbrev pub hosted_web : Web
  hosted_web = web net base initial client

  abbrev pub provider_of : Memory → Provider
  provider_of = behind net base initial client

  abbrev pub handling : Trace → Method → String → Option String → Provider → Provider × Served
  handling t = respond net (net.server_clock t)

  exchange-served :
      (undone unfinished : String) (r : Request) (m : Memory)
      → exchange hosted_web client undone unfinished r m ≡ (
        value (wire net (handling m.trace r.method r.url r.body (provider_of m)).1),
        called (send r) m,
      )
  unfolding exchange
  exchange-served undone unfinished r m =
      rw (reliable.accepts r, reliable.delivers m.trace r, exchange) refl

  send-served :
      (r : Request) (m : Memory)
      → provider_of (called (send r) m) ≡ (handling m.trace r.method r.url r.body (provider_of m)).0
  send-served r m =
      provider_after-send net initial r m.trace ∙ rw (reliable.delivers m.trace r) refl

  refresh-served : (m : Memory) → (refresh hosted_web client m).0 ≡ value "fake-token"
  unfolding refresh read_token keep_token token_reply write_json
  refresh-served m =
      rw
        (exchange-served "refreshing SCP token: " "reading token response: "
          (token_request hosted_web client) m)
        (rw
          (respond-token net base initial client (net.server_clock m.trace)
            (token_request hosted_web client).method client.token_url
            (token_request hosted_web client).body (provider_of m) speaks.token_path)
          (rw speaks.grant_read refl))

  token-served : (m : Memory) → (access : String) × ((token hosted_web client m).0 ≡ value access)
  unfolding token
  token-served m = elim (Bool-cases (ltb_ℤ (pos (base.clock m.trace)) m.token_expiry)) [
    | inl fresh ↦ (m.access_token, rw (fresh, token) refl)
    | inr stale ↦ ("fake-token", rw (stale, token) (refresh-served (called read_clock m)))
  ]

  -- What a request of the client gets: it is handled at the end of some trace behind the client's.
  pub record Handled (method : Method) (path : String) (body : Option String) (m : Memory)
      : Type 0 where
    pub at : Trace
    pub last : Request
    pub later : After m.trace at
    pub moved : (perform hosted_web client method path body m).1.trace ≡ send last ∷ at
    pub reply :
        (perform hosted_web client method path body m).0
        ≡ value (wire net (handling at method (client.scp_base ++ path) body (provider_of m)).1)
    pub left :
        provider_of (perform hosted_web client method path body m).1
        ≡ (handling at method (client.scp_base ++ path) body (provider_of m)).0

  pub perform-Handled :
      (method : Method) (path : String) (body : Option String) (m : Memory)
      → Handled method path body m
  unfolding perform
  perform-Handled method path body m =
      let (access, held) = token-served m in
      let known = (token hosted_web client m).1 in
      let r = request_for hosted_web client method path body access in
      let kept = token-Keeps net base initial client speaks.token_path m in
      let got =
        exchange-served ("SCP " ++ method_text method ++ " " ++ path ++ ": ")
          "reading SCP response: " r known in
      record {
        at = known.trace;
        last = r;
        later = token-Grows hosted_web client m;
        moved = rw (held, perform) (rw got refl);
        reply = rw (held, perform) (rw (got, kept) refl);
        left = rw (held, perform) (rw got (send-served r known ∙ rw kept refl));
      }
