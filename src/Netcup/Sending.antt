-- ===== src/Netcup/Sending.antt =====
-- What a request that succeeded has sent, and under which token.
use mathlib.Core.Path.{subst}
use foip_operator.Prelude.{
  ◌==◌, ℤ, String, Option, Option-cases, Bool-cases, inl, inr, ◌≡◌, refl, sym, ap, ◌∙◌, ◌⊎◌, ltb_ℤ,
  pos, ◌/◌,
}
use foip_operator.Netcup.{
  Web, Client, Act, Reply, Reply-cases, value, Memory, called, Method, Request, Response, Answer,
  unanswered, unread, answered, exchange, rejected, keep_token, read_token, token_request, refresh,
  token, perform, request_for, read_clock, send, ◌>>=◌, or_fail, Parsed, malformed, parsed,
}

pub Answer-cases :
    (a : Answer)
    → ((e : String) × (a ≡ unanswered e))
      ⊎ ((e : String) × (a ≡ unread e))
      ⊎ ((r : Response) × (a ≡ answered r))
Answer-cases (unanswered e) = inl (e, refl)
Answer-cases (unread e) = inr (inl (e, refl))
Answer-cases (answered r) = inr (inr (r, refl))

-- An action that goes on behind a call that may fail has a value only if both have.
pub or_fail-value :
    {A B : Type 0} (act : Act (Reply A)) (f : A → Act (Reply B)) (m later : Memory) (b : B)
    → (act >>= λ reply. or_fail reply f) m ≡ (value b, later)
    → (a : A) × ((act m).0 ≡ value a) × (f a (act m).1 ≡ (value b, later))
or_fail-value act f m later b h = elim (Reply-cases (act m).0) [
  | inl (e, failed) ↦ absurd (cc (rw failed at h))
  | inr (a, done) ↦ (a, done, rw done at h)
]

module _ (web : Web) (client : Client) where
  exchange-answered :
      (undone unfinished : String) (request : Request) (m : Memory) (response : Response)
      → (exchange web client undone unfinished request m).0 ≡ value response
      → (web.answer m.trace request ≡ answered response)
        × ((exchange web client undone unfinished request m).1 ≡ called (send request) m)
  unfolding exchange
  exchange-answered undone unfinished request m response h =
      elim (Option-cases (web.refuse request)) [
        | inr (e, refused) ↦ absurd (cc (rw (refused, exchange) at h))
        | inl accepted ↦ elim (Answer-cases (web.answer m.trace request)) [
          | inl (e, failed) ↦ absurd (cc (rw (accepted, failed, exchange) at h))
          | inr (inl (e, failed)) ↦ absurd (cc (rw (accepted, failed, exchange) at h))
          | inr (inr (r, success)) ↦
              let same : r ≡ response = cc (rw (accepted, success, exchange) at h) in
              (success ∙ ap answered same, rw (accepted, success, exchange) refl)
        ]
      ]

  -- The last call sent a request under the token that the client holds, and was answered.
  pub record Sent (method : Method) (path : String) (body : Option String) (response : Response)
      (m : Memory) : Type 0 where
    pub before : Memory
    pub last :
        m ≡ called (send (request_for web client method path body before.access_token)) before
    pub reply :
        web.answer before.trace (request_for web client method path body before.access_token)
        ≡ answered response

  keep_token-held :
      (found : Parsed (String × ℤ)) (m later : Memory) (access : String)
      → keep_token web client found m ≡ (value access, later)
      → later.access_token ≡ access
  unfolding keep_token
  keep_token-held (malformed e) m later access h = absurd (cc h)
  keep_token-held (parsed found) m later access h =
      let kept : value found.0 ≡ value access = ap (λ r. r.0) h in
      ap (λ r. r.1.access_token) (sym h) ∙ cc kept

  read_token-held :
      (response : Response) (m later : Memory) (access : String)
      → read_token web client response m ≡ (value access, later)
      → later.access_token ≡ access
  unfolding read_token rejected
  read_token-held response m later access h = elim (Bool-cases (response.status / 100 == 2)) [
    | inl good ↦ keep_token-held (web.token_of response.body) m later access (rw good at h)
    | inr bad ↦ absurd (cc (rw bad at h))
  ]

  token-held :
      (m later : Memory) (access : String)
      → token web client m ≡ (value access, later)
      → later.access_token ≡ access
  unfolding token refresh
  token-held m later access h = elim (Bool-cases (ltb_ℤ (pos (web.clock m.trace)) m.token_expiry)) [
    | inl fresh ↦
        let kept : (value m.access_token, called read_clock m) ≡ (value access, later) =
          rw (fresh, token) at h in
        ap (λ r. r.1.access_token) (sym kept) ∙ cc kept
    | inr stale ↦
        let (response, got, kept) =
          or_fail-value
            (exchange web client "refreshing SCP token: " "reading token response: "
              (token_request web client))
            (read_token web client) (called read_clock m) later access (rw (stale, token) at h) in
        read_token-held response _ later access kept
  ]

  pub perform-Sent :
      (method : Method) (path : String) (body : Option String) (m later : Memory)
      (response : Response)
      → perform web client method path body m ≡ (value response, later)
      → Sent method path body response later
  unfolding perform
  perform-Sent method path body m later response h =
      let (access, got, sent) = or_fail-value (token web client) _ m later response h in
      let known = (token web client m).1 in
      let held : known.access_token ≡ access =
        token-held m known access (ap (λ r. (r, known)) got) in
      let (reply, last) =
        exchange-answered _ _ (request_for web client method path body access) known response
          (ap (λ r. r.0) sent) in
      record {
        before = known;
        last =
            subst (λ a. later ≡ called (send (request_for web client method path body a)) known)
              (sym held) (ap (λ r. r.1) (sym sent) ∙ last);
        reply =
            subst
              (λ a.
                web.answer known.trace (request_for web client method path body a)
                ≡ answered response)
              (sym held) reply;
      }
