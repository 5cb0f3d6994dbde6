-- ===== src/FakeProvider/Effects.antt =====
-- What a call of the client does to the provider behind its web.
use Prim.Native.String.{◌++◌}
use mathlib.Core.Path.{subst}
use foip_operator.Prelude.{
  ℕ, ◌==◌, ◌/◌, ℤ, pos, ltb_ℤ, String, Bool-cases, Option, Option-cases, inl, inr, ◌≡◌, refl, ap,
  ◌∙◌, ◌⊎◌, arith,
}
use foip_operator.Netcup.{
  Web, Client, Memory, Method, get, post, Request, Response, Reply, Reply-cases, value, error, Act,
  Parsed, malformed, parsed, exchange, rejected, keep_token, read_token, token_request, refresh,
  token, perform, request_for, method_text, called, read_clock, ◌>>=◌, or_fail,
}
use foip_operator.Netcup.Errors.{Failure}
use foip_operator.Prelude.{str_eq}
use foip_operator.Prelude.Text.Prefix.{has_prefix}
use foip_operator.FakeProvider.{Provider, handle, api, token_reply}
use foip_operator.FakeProvider.Hosting.{
  Network, Delivery, delivered, unsent, unheard, cut_off, respond, wire, provider_after,
  provider_after-send, hosted,
}

module _ (net : Network) (base : Web) (initial : Provider) (client : Client) where
  -- What a request does to the provider: it is handled and answered, it never arrives, or it is
  -- handled and its answer is lost.
  pub data Effect (p : Provider) (method : Method) (url : String) (body : Option String)
      : Reply Response → Provider → Type 0 where
    handled :
        (at : ℕ)
        → Effect p method url body
            (value (wire net (respond net at method url body p).1))
            (respond net at method url body p).0
    skipped : {e : Failure} → Effect p method url body (error e) p
    lost :
        {e : Failure} (at : ℕ)
        → Effect p method url body (error e) (respond net at method url body p).0

  abbrev pub web : Web
  web = hosted net base initial

  abbrev pub behind : Memory → Provider
  behind m = provider_after net initial m.trace

  Delivery-cases :
      (d : Delivery)
      → (d ≡ delivered)
        ⊎ ((e : String) × (d ≡ unsent e))
        ⊎ ((e : String) × (d ≡ unheard e))
        ⊎ ((e : String) × (d ≡ cut_off e))
  Delivery-cases delivered = inl refl
  Delivery-cases (unsent e) = inr (inl (e, refl))
  Delivery-cases (unheard e) = inr (inr (inl (e, refl)))
  Delivery-cases (cut_off e) = inr (inr (inr (e, refl)))

  exchange-Effect :
      (undone unfinished : String) (r : Request) (m : Memory)
      → Effect
          (behind m)
          r.method
          r.url
          r.body
          (exchange web client undone unfinished r m).0
          (behind (exchange web client undone unfinished r m).1)
  unfolding exchange
  exchange-Effect undone unfinished r m = elim (Option-cases (base.refuse r)) [
    | inr (e, refused) ↦ rw (refused, exchange) skipped
    | inl accepted ↦ elim (Delivery-cases (net.delivery m.trace r)) [
      | inl e ↦
          rw (accepted, e, exchange)
            (rw (provider_after-send, e) (handled (net.server_clock m.trace)))
      | inr (inl (_, e)) ↦ rw (accepted, e, exchange) (rw (provider_after-send, e) skipped)
      | inr (inr (inl (_, e))) ↦
          rw (accepted, e, exchange) (rw (provider_after-send, e) (lost (net.server_clock m.trace)))
      | inr (inr (inr (_, e))) ↦
          rw (accepted, e, exchange) (rw (provider_after-send, e) (lost (net.server_clock m.trace)))
    ]
  ]

  -- An action that leaves the provider as it is.
  abbrev pub Keeps : {A : Type 0} → Act A → Type 0
  Keeps act = (m : Memory) → behind (act m).1 ≡ behind m

  pub or_fail-same :
      {A B : Type 0} (reply : Reply A) (f : A → Act (Reply B))
      → ((a : A) → Keeps (f a))
      → Keeps (or_fail reply f)
  or_fail-same (error e) f keeps m = refl
  or_fail-same (value a) f keeps m = keeps a m

  pub or_fail-Keeps :
      {A B : Type 0} (act : Act (Reply A)) (f : A → Act (Reply B))
      → Keeps act
      → ((a : A) → Keeps (f a))
      → Keeps (act >>= λ reply. or_fail reply f)
  or_fail-Keeps act f first second m = or_fail-same (act m).0 f second (act m).1 ∙ first m

  keep_token-Keeps : (found : Parsed (String × ℤ)) → Keeps (keep_token web client found)
  unfolding keep_token provider_after
  keep_token-Keeps (malformed e) m = refl
  keep_token-Keeps (parsed found) m = refl

  read_token-Keeps : (response : Response) → Keeps (read_token web client response)
  unfolding read_token rejected provider_after
  read_token-Keeps response m = elim (Bool-cases (response.status / 100 == 2)) [
    | inl good ↦ rw (good, read_token) (keep_token-Keeps (web.token_of response.body) m)
    | inr bad ↦ rw (bad, read_token) refl
  ]

  pub respond-token :
      (at : ℕ) (method : Method) (url : String) (body : Option String) (p : Provider)
      → net.path_of url ≡ "/token"
      → respond net at method url body p ≡ (p, token_reply)
  unfolding handle has_prefix str_eq
  respond-token at method url body p e = rw e refl

  module _ (token_path : net.path_of client.token_url ≡ "/token") where
    token_request-Keeps :
        (body : Option String) (p later : Provider) (reply : Reply Response)
        → Effect p post client.token_url body reply later
        → later ≡ p
    token_request-Keeps body p later reply (handled at) =
        ap (λ r. r.0) (respond-token at post client.token_url body p token_path)
    token_request-Keeps body p later reply skipped = refl
    token_request-Keeps body p later reply (lost at) =
        ap (λ r. r.0) (respond-token at post client.token_url body p token_path)

    refresh-Keeps : Keeps (refresh web client)
    unfolding refresh
    refresh-Keeps m =
        or_fail-Keeps
          (exchange web client "refreshing SCP token: " "reading token response: "
            (token_request web client))
          (read_token web client)
          (λ s. token_request-Keeps _ _ _ _ (exchange-Effect _ _ (token_request web client) s))
          read_token-Keeps m

    pub token-Keeps : Keeps (token web client)
    unfolding token provider_after
    token-Keeps m = elim (Bool-cases (ltb_ℤ (pos (base.clock m.trace)) m.token_expiry)) [
      | inl fresh ↦ rw (fresh, token) refl
      | inr stale ↦ rw (stale, token) (refresh-Keeps (called read_clock m))
    ]

    Effect-same :
        {method : Method} {url : String} {body : Option String} {p q later : Provider}
        {reply : Reply Response}
        → p ≡ q
        → Effect p method url body reply later
        → Effect q method url body reply later
    Effect-same {method} {url} {body} {later} {reply} same =
        subst (λ s. Effect s method url body reply later) same

    Effect-skipped :
        {method : Method} {url : String} {body : Option String} {p q : Provider} {e : Failure}
        → q ≡ p
        → Effect p method url body (error e) q
    Effect-skipped same = Effect-same same skipped

    -- The client's requests reach the provider as they are, since its own calls for a token do not
    -- change it.
    pub perform-Effect :
        (method : Method) (path : String) (body : Option String) (m : Memory)
        → Effect
            (behind m)
            method
            (client.scp_base ++ path)
            body
            (perform web client method path body m).0
            (behind (perform web client method path body m).1)
    unfolding perform
    perform-Effect method path body m = elim (Reply-cases (token web client m).0) [
      | inl (e, failed) ↦ rw (failed, perform) (Effect-skipped (token-Keeps m))
      | inr (access, done) ↦
          rw (done, perform)
            (Effect-same (token-Keeps m) (
              exchange-Effect ("SCP " ++ method_text method ++ " " ++ path ++ ": ")
                "reading SCP response: " (request_for web client method path body access)
                (token web client m).1))
    ]

    handle-get :
        (at : ℕ) (path : String) (s : Option ℤ) (p : Provider) → (handle at get path s p).0 ≡ p
    unfolding handle api
    handle-get at path s p = ground arith

    -- A GET leaves the provider as it is.
    pub get-Keeps :
        (url : String) (body : Option String) (p later : Provider) (reply : Reply Response)
        → Effect p get url body reply later
        → later ≡ p
    get-Keeps url body p later reply (handled at) = handle-get at _ _ p
    get-Keeps url body p later reply skipped = refl
    get-Keeps url body p later reply (lost at) = handle-get at _ _ p
