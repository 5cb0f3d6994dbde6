-- ===== src/Netcup/Polling.antt =====
-- waitForTask ends when its context does.
use foip_operator.Prelude.{
  ℕ, zero, suc, ℤ, ◌+◌, leb, String, true, none, some, Option, Option-cases, inl, inr, [], ◌∷◌, ◌≡◌,
  ◌≢◌, refl, ap, ◌∙◌, ◌⊎◌, arith,
}
use foip_operator.Netcup.{
  Web, Client, Act, Reply, Reply-cases, Memory, Trace, pause, called, Method, get, Request,
  Response, exchange, rejected, keep_token, read_token, token_request, refresh, token, perform,
  read_clock, ◌>>=◌, or_fail, Parsed, malformed, parsed,
}
use foip_operator.Netcup.Tasks.{Round, ended, again, round, task_path, wait_for_task}

-- The pauses of a trace.
abbrev pub pauses : Trace → ℕ
pauses [] = 0
pauses (pause ∷ t) = suc (pauses t)
pauses (_ ∷ t) = pauses t

-- An action without a pause.
abbrev Quiet : {A : Type 0} → Act A → Type 0
Quiet act = (m : Memory) → pauses (act m).1.trace ≡ pauses m.trace

or_fail-Quiet :
    {A B : Type 0} (act : Act (Reply A)) (f : A → Act (Reply B))
    → Quiet act
    → ((a : A) → Quiet (f a))
    → Quiet (act >>= λ reply. or_fail reply f)
or_fail-Quiet act f first second m = elim (Reply-cases (act m).0) [
  | inl (e, failed) ↦ rw failed (first m)
  | inr (a, done) ↦ rw done (second a (act m).1 ∙ first m)
]

module _ (web : Web) (client : Client) where
  exchange-Quiet :
      (undone unfinished : String) (request : Request)
      → Quiet (exchange web client undone unfinished request)
  unfolding exchange
  exchange-Quiet undone unfinished request m = ground arith

  keep_token-Quiet : (found : Parsed (String × ℤ)) → Quiet (keep_token web client found)
  unfolding keep_token
  keep_token-Quiet (malformed e) m = refl
  keep_token-Quiet (parsed found) m = refl

  read_token-Quiet : (response : Response) → Quiet (read_token web client response)
  unfolding read_token rejected
  read_token-Quiet response m = ground (arith, keep_token-Quiet (web.token_of response.body) m)

  refresh-Quiet : Quiet (refresh web client)
  unfolding refresh
  refresh-Quiet =
      or_fail-Quiet
        (exchange web client "refreshing SCP token: " "reading token response: "
          (token_request web client))
        (read_token web client) (exchange-Quiet _ _ _) read_token-Quiet

  token-Quiet : Quiet (token web client)
  unfolding token
  token-Quiet m = ground (arith, refresh-Quiet (called read_clock m))

  perform-Quiet :
      (method : Method) (path : String) (body : Option String)
      → Quiet (perform web client method path body)
  unfolding perform
  perform-Quiet method path body =
      or_fail-Quiet (token web client) _ token-Quiet (λ access. exchange-Quiet _ _ _)

  Round-cases :
      (r : Round web client) → ((reply : Reply (Unit {0})) × (r ≡ ended reply)) ⊎ (r ≡ again)
  Round-cases (ended reply) = inl (reply, refl)
  Round-cases again = inr refl

  -- The context is done when `n` pauses are over.
  abbrev pub DoneBy : ℕ → Type 0
  DoneBy n = (t : Trace) → leb n (pauses t) ≡ true → web.pause t ≢ none

  -- Another round follows only where the context lets the pause pass.
  round_again :
      (uuid : String) (m : Memory)
      → (round web client uuid m).0 ≡ again
      → (web.pause m.trace ≡ none)
        × (pauses (round web client uuid m).1.trace ≡ suc (pauses m.trace))
  unfolding round
  round_again uuid m h = elim (Option-cases (web.pause m.trace)) [
    | inl passed ↦ (
      passed,
      rw (passed, round) (perform-Quiet get (task_path web client uuid) none (called pause m)),
    )
    | inr (e, done) ↦ absurd (cc (rw (done, round) at h))
  ]

  wait_ends :
      (n : ℕ) (uuid : String)
      → DoneBy n
      → (rounds : ℕ) (m : Memory) → leb n (pauses m.trace + rounds) ≡ true
      → (wait_for_task web client (suc rounds) uuid m).0 ≢ none
  unfolding wait_for_task
  wait_ends n uuid done zero m enough = elim (Round-cases (round web client uuid m).0) [
    | inl (reply, end) ↦ rw (end, wait_for_task) (λ none_left. absurd (cc none_left))
    | inr more ↦ absurd (done m.trace (ground (arith, enough)) (round_again uuid m more).0)
  ]
  wait_ends n uuid done (suc rounds) m enough = elim (Round-cases (round web client uuid m).0) [
    | inl (reply, end) ↦ rw (end, wait_for_task) (λ none_left. absurd (cc none_left))
    | inr more ↦
        rw (more, wait_for_task)
          (wait_ends n uuid done rounds (round web client uuid m).1
            (ground (arith, enough, (round_again uuid m more).1)))
  ]

  -- Rounds that are left over change nothing.
  wait_for_task-stable :
      (rounds more : ℕ) (uuid : String) (m later : Memory) (reply : Reply (Unit {0}))
      → wait_for_task web client rounds uuid m ≡ (some reply, later)
      → wait_for_task web client (rounds + more) uuid m ≡ (some reply, later)
  unfolding wait_for_task
  wait_for_task-stable zero more uuid m later reply h = absurd (cc h)
  wait_for_task-stable (suc rounds) more uuid m later reply h =
      let longer : suc rounds + more ≡ suc (rounds + more) = omega arith in
      elim (Round-cases (round web client uuid m).0) [
        | inl (result, end) ↦ rw (longer, end, wait_for_task) (rw (end, wait_for_task) at h)
        | inr on ↦
            rw (longer, on, wait_for_task)
              (wait_for_task-stable rounds more uuid (round web client uuid m).1 later reply
                (rw (on, wait_for_task) at h))
      ]

  -- The loop of waitForTask ends: if the context is done when n pauses are over, then from any state
  -- of the client and whatever the provider answers, it has a result within n + 1 rounds, and more
  -- rounds do not change the result.
  pub wait_for_task-ends :
      (n : ℕ) (uuid : String) (m : Memory)
      → DoneBy n
      → (reply : Reply (Unit {0})) × (later : Memory) × ((more : ℕ)
          → wait_for_task web client (suc n + more) uuid m ≡ (some reply, later))
  wait_for_task-ends n uuid m done =
      elim (Option-cases (wait_for_task web client (suc n) uuid m).0) [
        | inl none_left ↦ absurd (wait_ends n uuid done n m (ground arith) none_left)
        | inr (reply, result) ↦
            let later = (wait_for_task web client (suc n) uuid m).1 in
            (
              reply,
              later,
              λ more.
                  wait_for_task-stable (suc n) more uuid m later reply
                    (ap (λ r. (r, later)) result),
            )
      ]
