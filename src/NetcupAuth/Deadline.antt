-- ===== src/NetcupAuth/Deadline.antt =====
-- The deadline of pollForToken.
use foip_operator.Prelude.{
  ℕ, zero, suc, ◌+◌, ◌*◌, ◌≤◌, leb, pos, ltb_ℤ, String, true, false, Bool-cases, some, ◌∷◌, ◌≡◌,
  refl, ◌∙◌, inl, inr, arith,
}
use foip_operator.Netcup.Errors.{seconds, wrap64}
use foip_operator.NetcupAuth.{
  World, Trace, token_url, poll_fields, Call, look, sleep, TokenResponse, Result, value, error,
  poll_until, poll_for_token,
}
use foip_operator.NetcupAuth.Polling.{
  Finished, Poll-cases, answer_after, after_round, poll_until-late, poll_until-early,
  poll_until-Finished,
}

-- A duration of seconds that does not overflow.
seconds-exact : (n : ℕ) → leb n 9223372036 ≡ true → seconds (pos n) ≡ pos (n * 1000000000)
unfolding seconds wrap64
seconds-exact n small = ground (arith, small)

suc_add : (n m : ℕ) → suc n + m ≡ suc (n + m)
suc_add n m = omega arith

suc_mul : (n d : ℕ) → suc n * d ≡ n * d + d
suc_mul n d = grind arith

scaled : (rounds n e : ℕ) → e ≤ rounds * n → e * 1000000000 ≤ rounds * (n * 1000000000)
scaled rounds n e h = grind arith

-- The clock does not go back, and a sleep lasts at least its duration.
pub record Ticks (world : World) : Type 0 where
  pub forward : (c : Call) (t : Trace) → world.clock t ≤ world.clock (c ∷ t)
  pub sleeps : (d : ℕ) (t : Trace) → world.clock t + d ≤ world.clock (sleep (pos d) ∷ t)

module _ (world : World) (ticks : Ticks world) (device_code : String) (d deadline : ℕ) where
  round-ticks :
      (t : Trace)
      → world.clock t + d ≤ world.clock (after_round world device_code (pos d) (pos deadline) t)
  round-ticks t = omega (
    arith,
    ticks.forward look t,
    ticks.sleeps d (look ∷ t),
    ticks.forward (Call.post token_url (poll_fields device_code)) (sleep (pos d) ∷ look ∷ t),
  )

  -- The test of the deadline fails once the deadline has come.
  late_at :
      (t : Trace) → deadline ≤ world.clock t → ltb_ℤ (pos (world.clock t)) (pos deadline) ≡ false
  late_at t due = ground (arith, due)

  -- The loop with any number of rounds from `rounds` on has a result, and always the same.
  abbrev Ends : ℕ → Trace → Type 0
  Ends rounds t =
      (result : Result TokenResponse) × (later : Trace) × ((more : ℕ)
        → poll_until world (suc (rounds + more)) device_code (pos d) (pos deadline) t
          ≡ (some result, later))

  Ends-late :
      (rounds : ℕ) (t : Trace) → ltb_ℤ (pos (world.clock t)) (pos deadline) ≡ false → Ends rounds t
  Ends-late rounds t late = (
    error "timed out waiting for authorization",
    look ∷ t,
    λ more. poll_until-late world device_code (pos d) (pos deadline) (rounds + more) t late,
  )

  Ends-early :
      (rounds : ℕ) (t : Trace)
      → ltb_ℤ (pos (world.clock t)) (pos deadline) ≡ true
      → Ends rounds (after_round world device_code (pos d) (pos deadline) t)
      → Ends (suc rounds) t
  Ends-early rounds t early (result, later, ends) =
      let next = λ (more : ℕ).
        poll_until-early world device_code (pos d) (pos deadline) (suc rounds + more) t early in
      elim (Poll-cases (answer_after world device_code (pos d) (pos deadline) t)) [
        | inl (token, done) ↦ (
          value token,
          after_round world device_code (pos d) (pos deadline) t,
          λ more. next more ∙ rw done refl,
        )
        | inr (inl (e, done)) ↦ (
          error e,
          after_round world device_code (pos d) (pos deadline) t,
          λ more. next more ∙ rw done refl,
        )
        | inr (inr wait) ↦
            (result, later, λ more. next more ∙ rw (wait, suc_add rounds more) (ends more))
      ]

  -- With a round for each interval up to the deadline and one more, the loop has a result, and more
  -- rounds change nothing.
  poll_until-Ends : (rounds : ℕ) (t : Trace) → deadline ≤ world.clock t + rounds * d → Ends rounds t
  poll_until-Ends zero t due = Ends-late zero t (late_at t (omega (arith, due)))
  poll_until-Ends (suc rounds) t due =
      elim (Bool-cases (ltb_ℤ (pos (world.clock t)) (pos deadline))) [
        | inr late ↦ Ends-late (suc rounds) t late
        | inl early ↦ Ends-early rounds t early (
            poll_until-Ends rounds (after_round world device_code (pos d) (pos deadline) t)
              (omega (arith, due, round-ticks t, suc_mul rounds d)))
      ]

-- pollForToken ends: where the interval is n seconds and the codes expire after e seconds, with
-- e ≤ rounds * n, it has a result after at most rounds + 1 tests of the deadline, and more rounds
-- change nothing. Up to the result it has slept before every request, for the interval each time,
-- whether or not the answer before was slow_down. The clock does not go back, a sleep lasts at least
-- its duration, and neither duration exceeds 9223372036 seconds.
pub poll_for_token-ends :
    (world : World) (device_code : String) (rounds n e : ℕ) (t : Trace)
    → Ticks world
    → leb n 9223372036 ≡ true
    → leb e 9223372036 ≡ true
    → e ≤ rounds * n
    → (result : Result TokenResponse) × (later : Trace) × ((more : ℕ)
        → poll_for_token world (suc (rounds + more)) device_code (pos n) (pos e) t
          ≡ (some result, later))
      × Finished device_code (pos (n * 1000000000)) (look ∷ t) later
unfolding poll_for_token
poll_for_token-ends world device_code rounds n e t ticks small short enough =
    let nanoseconds = n * 1000000000 in
    let deadline = world.clock t + e * 1000000000 in
    let due : deadline ≤ world.clock (look ∷ t) + rounds * nanoseconds =
      omega (arith, ticks.forward look t, scaled rounds n e enough) in
    let (result, later, ends) =
      poll_until-Ends world ticks device_code nanoseconds deadline rounds (look ∷ t) due in
    (
      result,
      later,
      λ more. rw (seconds-exact n small, seconds-exact e short) (ends more),
      poll_until-Finished world device_code (pos nanoseconds) (pos deadline) (suc (rounds + 0))
          (look ∷ t) later result (ends 0),
    )
