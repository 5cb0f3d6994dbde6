-- ===== src/Netcup/Growing.antt =====
-- The client only adds calls to those that it has made.
use foip_operator.Prelude.{
  ℕ, zero, suc, ℤ, String, none, Option, Option-cases, Bool-cases, inl, inr, ◌∷◌, ltb_ℤ, pos, ◌==◌,
  ◌/◌,
}
use foip_operator.Netcup.{
  Web, Client, Act, Reply, Reply-cases, Memory, Trace, Call, pause, called, Method, get, Request,
  Response, exchange, rejected, keep_token, read_token, token_request, refresh, token, perform,
  read_clock, ◌>>=◌, or_fail, Parsed, malformed, parsed,
}
use foip_operator.Netcup.Sending.{Answer-cases}
use foip_operator.Netcup.Tasks.{Round, ended, again, round, task_path, wait_for_task, unless_ended}

pub data After (t : Trace) : Trace → Type 0 where
  same : After t t
  more : {c : Call} {u : Trace} → After t u → After t (c ∷ u)

pub After-trans : {t u v : Trace} → After t u → After u v → After t v
After-trans first same = first
After-trans first (more later) = more (After-trans first later)

-- An action that only adds calls.
abbrev pub Grows : {A : Type 0} → Act A → Type 0
Grows act = (m : Memory) → After m.trace (act m).1.trace

or_fail-Grows :
    {A B : Type 0} (act : Act (Reply A)) (f : A → Act (Reply B))
    → Grows act
    → ((a : A) → Grows (f a))
    → Grows (act >>= λ reply. or_fail reply f)
or_fail-Grows act f first second m = elim (Reply-cases (act m).0) [
  | inl (e, failed) ↦ rw failed (first m)
  | inr (a, done) ↦ rw done (After-trans (first m) (second a (act m).1))
]

module _ (web : Web) (client : Client) where
  exchange-Grows :
      (undone unfinished : String) (request : Request)
      → Grows (exchange web client undone unfinished request)
  unfolding exchange
  exchange-Grows undone unfinished request m = elim (Option-cases (web.refuse request)) [
    | inr (e, refused) ↦ rw (refused, exchange) same
    | inl accepted ↦ elim (Answer-cases (web.answer m.trace request)) [
      | inl (e, failed) ↦ rw (accepted, failed, exchange) (more same)
      | inr (inl (e, failed)) ↦ rw (accepted, failed, exchange) (more same)
      | inr (inr (r, success)) ↦ rw (accepted, success, exchange) (more same)
    ]
  ]

  keep_token-Grows : (found : Parsed (String × ℤ)) → Grows (keep_token web client found)
  unfolding keep_token
  keep_token-Grows (malformed e) m = same
  keep_token-Grows (parsed found) m = more same

  read_token-Grows : (response : Response) → Grows (read_token web client response)
  unfolding read_token rejected
  read_token-Grows response m = elim (Bool-cases (response.status / 100 == 2)) [
    | inl good ↦ rw (good, read_token) (keep_token-Grows (web.token_of response.body) m)
    | inr bad ↦ rw (bad, read_token) (more same)
  ]

  pub token-Grows : Grows (token web client)
  unfolding token refresh
  token-Grows m = elim (Bool-cases (ltb_ℤ (pos (web.clock m.trace)) m.token_expiry)) [
    | inl fresh ↦ rw (fresh, token) (more same)
    | inr stale ↦
        rw (stale, token)
          (After-trans (more same) (
            or_fail-Grows
              (exchange web client "refreshing SCP token: " "reading token response: "
                (token_request web client))
              (read_token web client) (exchange-Grows _ _ _) read_token-Grows
              (called read_clock m)))
  ]

  perform-Grows :
      (method : Method) (path : String) (body : Option String)
      → Grows (perform web client method path body)
  unfolding perform
  perform-Grows method path body =
      or_fail-Grows (token web client) _ token-Grows (λ access. exchange-Grows _ _ _)

  round-Grows : (uuid : String) → Grows (round web client uuid)
  unfolding round
  round-Grows uuid m = elim (Option-cases (web.pause m.trace)) [
    | inr (e, done) ↦ rw (done, round) (more same)
    | inl passed ↦
        rw (passed, round)
          (After-trans (more same)
            (perform-Grows get (task_path web client uuid) none (called pause m)))
  ]

  unless_ended-Grows :
      (result : Round web client) (rest : Act (Option (Reply (Unit {0}))))
      → Grows rest
      → Grows (unless_ended web client result rest)
  unless_ended-Grows (ended reply) rest grows m = same
  unless_ended-Grows again rest grows m = grows m

  pub wait_for_task-Grows :
      (rounds : ℕ) (uuid : String) → Grows (wait_for_task web client rounds uuid)
  unfolding wait_for_task
  wait_for_task-Grows zero uuid m = same
  wait_for_task-Grows (suc rounds) uuid m = After-trans (round-Grows uuid m) (
      unless_ended-Grows (round web client uuid m).0 (wait_for_task web client rounds uuid)
        (wait_for_task-Grows rounds uuid) (round web client uuid m).1)
