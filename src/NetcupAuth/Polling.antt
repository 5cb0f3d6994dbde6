-- ===== src/NetcupAuth/Polling.antt =====
-- The loop of pollForToken: what it calls, that it ends, and when it succeeds.
use mathlib.Core.Path.{subst}
use foip_operator.Prelude.{
  ℕ, zero, suc, ℤ, pos, ltb_ℤ, String, true, false, Bool-cases, Option, some, ◌∷◌, ◌≡◌, refl, sym,
  ap, ◌∙◌, ◌⊎◌, inl, inr,
}
use foip_operator.NetcupAuth.{
  World, Trace, look, sleep, post, token_url, poll_fields, Poll, granted, pending, refused,
  TokenResponse, Result, error, poll_once, poll_round, unless_settled, poll_until, read_poll, Act,
}

-- The calls of the loop behind a trace: rounds of a look at the clock, one sleep of the interval and
-- one request for the token, and perhaps a last look at the clock.
pub data Paced (device_code : String) (interval : ℤ) (t : Trace) : Trace → Type 0 where
  start : Paced device_code interval t t
  asked :
      {u : Trace}
      → Paced device_code interval t u
      → Paced device_code interval t
          (post token_url (poll_fields device_code) ∷ sleep interval ∷ look ∷ u)

pub data Finished (device_code : String) (interval : ℤ) (t : Trace) : Trace → Type 0 where
  answered_by : {u : Trace} → Paced device_code interval t u → Finished device_code interval t u
  timed_out :
      {u : Trace} → Paced device_code interval t u → Finished device_code interval t (look ∷ u)

Paced-trans :
    {device_code : String} {interval : ℤ} {t u v : Trace}
    → Paced device_code interval t u
    → Paced device_code interval u v
    → Paced device_code interval t v
Paced-trans first start = first
Paced-trans first (asked later) = asked (Paced-trans first later)

Paced-Finished :
    {device_code : String} {interval : ℤ} {t u v : Trace}
    → Paced device_code interval t u
    → Finished device_code interval u v
    → Finished device_code interval t v
Paced-Finished first (answered_by later) = answered_by (Paced-trans first later)
Paced-Finished first (timed_out later) = timed_out (Paced-trans first later)

pub Poll-cases :
    (p : Poll)
    → ((token : TokenResponse) × (p ≡ granted token))
      ⊎ ((e : String) × (p ≡ refused e))
      ⊎ (p ≡ pending)
Poll-cases (granted token) = inl (token, refl)
Poll-cases (refused e) = inr (inl (e, refl))
Poll-cases pending = inr (inr refl)

module _ (world : World) (device_code : String) (interval deadline : ℤ) where
  abbrev pub after_round : Trace → Trace
  after_round t = post token_url (poll_fields device_code) ∷ sleep interval ∷ look ∷ t

  -- What the round behind a look at the clock gets.
  abbrev pub answer_after : Trace → Poll
  answer_after t =
      read_poll world
        (world.post_form (sleep interval ∷ look ∷ t) token_url (poll_fields device_code))

  pub poll_until-late :
      (rounds : ℕ) (t : Trace)
      → ltb_ℤ (pos (world.clock t)) deadline ≡ false
      → poll_until world (suc rounds) device_code interval deadline t
        ≡ (some (error "timed out waiting for authorization"), look ∷ t)
  unfolding poll_until
  poll_until-late rounds t late = rw (late, poll_until) refl

  pub poll_until-early :
      (rounds : ℕ) (t : Trace)
      → ltb_ℤ (pos (world.clock t)) deadline ≡ true
      → poll_until world (suc rounds) device_code interval deadline t
        ≡ unless_settled
            (answer_after t)
            (poll_until world rounds device_code interval deadline)
            (after_round t)
  unfolding poll_until poll_round poll_once
  poll_until-early rounds t early = rw (early, poll_until) refl

  -- The loop has the result of the round, or goes on behind it.
  unless_settled-Finished :
      (poll : Poll) (rest : Act (Option (Result TokenResponse))) (t u later : Trace)
      (result : Result TokenResponse)
      → Paced device_code interval t u
      → ((later : Trace) → rest u ≡ (some result, later) → Finished device_code interval u later)
      → unless_settled poll rest u ≡ (some result, later)
      → Finished device_code interval t later
  unless_settled-Finished (granted token) rest t u later result paced next h =
      subst (λ l. Finished device_code interval t l) (ap (λ r. r.1) h) (answered_by paced)
  unless_settled-Finished (refused e) rest t u later result paced next h =
      subst (λ l. Finished device_code interval t l) (ap (λ r. r.1) h) (answered_by paced)
  unless_settled-Finished pending rest t u later result paced next h =
      Paced-Finished paced (next later h)

  pub poll_until-Finished :
      (rounds : ℕ) (t later : Trace) (result : Result TokenResponse)
      → poll_until world rounds device_code interval deadline t ≡ (some result, later)
      → Finished device_code interval t later
  unfolding poll_until
  poll_until-Finished zero t later result h = absurd (cc h)
  poll_until-Finished (suc rounds) t later result h =
      elim (Bool-cases (ltb_ℤ (pos (world.clock t)) deadline)) [
        | inr late ↦
            subst (λ l. Finished device_code interval t l)
              (ap (λ r. r.1) (sym (poll_until-late rounds t late) ∙ h)) (timed_out start)
        | inl early ↦
            unless_settled-Finished (answer_after t)
              (poll_until world rounds device_code interval deadline) t (after_round t) later result
              (asked start) (λ l. poll_until-Finished rounds (after_round t) l result)
              (sym (poll_until-early rounds t early) ∙ h)
      ]
