-- ===== src/Probe/Laws.antt =====
-- The gate of a phase, and the runs of successes and failures that open and close it.
use foip_operator.Prelude.{
  ℕ, ℤ, pos, ◌+◌, ◌≤◌, ◌<◌, true, false, some, List, [], ◌∷◌, length, All, ◌≡◌, refl, sym, ap, ◌∙◌,
  ◌↔◌, arith, to_nat, ltb_ℤ, str_eq_iff,
}
use mathlib.Core.Path.{subst}
use foip_operator.Api.Types.{
  ProbeComposition, no_composition, all_probes, any_probe, quorum_probes, other_composition,
  FailoverProbeSpec, ProbeObservation, FailoverProbe,
}
use foip_operator.Probe.{
  ProbeResult, successes, compose, aggregate, find_observation, previous_observation, at_least_one,
  judge, apply_probe_thresholds, put_observation, persist_probe_observation, observe,
}

successes-le : (rs : List ProbeResult) → successes rs ≤ length rs
unfolding successes
successes-le [] = omega arith
successes-le (r ∷ rs) = ground (arith, successes-le rs)

-- Every result is a success.
abbrev pub AllPass : List ProbeResult → Type 0
AllPass rs = All (λ r. r.success ≡ true) rs

successes-all : (rs : List ProbeResult) → (successes rs ≡ length rs) ↔ AllPass rs
unfolding successes
successes-all [] = (λ h. tt, λ h. refl)
successes-all (r ∷ rs) =
    (λ h. ground (arith, successes-all rs, successes-le rs), λ h. ground (arith, successes-all rs))

-- What a composition asks of the results.
abbrev pub Composed : ProbeComposition → ℤ → List ProbeResult → Type 0
Composed no_composition quorum rs = AllPass rs
Composed all_probes quorum rs = AllPass rs
Composed any_probe quorum rs = 0 < successes rs
Composed quorum_probes quorum rs = ltb_ℤ (pos (successes rs)) quorum ≡ false
Composed (other_composition s) quorum rs = ⊥

compose-Composed :
    (c : ProbeComposition) (q : ℤ) (rs : List ProbeResult)
    → ((compose c q (length rs) (successes rs)).success ≡ true) ↔ Composed c q rs
unfolding compose
compose-Composed no_composition q rs =
    (λ h. (successes-all rs).0 (ground arith), λ h. ground (arith, (successes-all rs).1 h))
compose-Composed all_probes q rs =
    (λ h. (successes-all rs).0 (ground arith), λ h. ground (arith, (successes-all rs).1 h))
compose-Composed any_probe q rs = (λ h. ground arith, λ h. ground arith)
compose-Composed quorum_probes q rs = (λ h. ground arith, λ h. ground arith)
compose-Composed (other_composition s) q rs = (λ h. absurd (ground arith), λ h. elim h [ ])

-- Aggregate reports success exactly if there is a result and the composition is met: all results
-- for All or no composition, one for Any, no fewer than the quorum for Quorum; never for another.
pub aggregate-Composed :
    (c : ProbeComposition) (q : ℤ) (r : ProbeResult) (rs : List ProbeResult)
    → ((aggregate c q (r ∷ rs)).success ≡ true) ↔ Composed c q (r ∷ rs)
unfolding aggregate
aggregate-Composed c q r rs = compose-Composed c q (r ∷ rs)

find-put_observation :
    (new : ProbeObservation) (os : List ProbeObservation)
    → find_observation (put_observation new os) new.name ≡ some new
unfolding find_observation put_observation
find-put_observation new [] = ground (arith, str_eq_iff new.name new.name)
find-put_observation new (o ∷ os) =
    ground
      (arith, str_eq_iff new.name new.name, str_eq_iff o.name new.name, find-put_observation new os)

-- The probe after a sequence of executed results, all observed at one time.
unfoldable pub observe_all : FailoverProbe → List ProbeResult → ℕ → FailoverProbe
observe_all probe [] now = probe
observe_all probe (r ∷ rs) now = observe_all (observe probe r now).1 rs now

-- The observation that the probe stores of itself.
abbrev pub stored : FailoverProbe → ProbeObservation
stored probe = previous_observation (find_observation probe.status.observations probe.name)

stored-observe :
    (probe : FailoverProbe) (r : ProbeResult) (now : ℕ)
    → let judged = judge probe.spec (stored probe) r in
      let after = (observe probe r now).1 in
      ((stored after).success ≡ judged.result.success)
      × ((stored after).consecutive_successes ≡ judged.successes)
      × ((stored after).consecutive_failures ≡ judged.failures)
      × (after.spec ≡ probe.spec)
unfolding observe persist_probe_observation apply_probe_thresholds previous_observation
stored-observe probe r now =
    rw (find-put_observation _ probe.status.observations) (refl, refl, refl, refl)

-- A threshold as the code reads it.
abbrev pub success_threshold : FailoverProbe → ℕ
success_threshold probe = to_nat (at_least_one probe.spec.success_threshold)

abbrev pub failure_threshold : FailoverProbe → ℕ
failure_threshold probe = to_nat (at_least_one probe.spec.failure_threshold)

judge-passes :
    (spec : FailoverProbeSpec) (o : ProbeObservation) (r : ProbeResult) (n : ℕ)
    → o.consecutive_successes ≡ pos n
    → n + 1 < 2147483648
    → r.success ≡ true
    → ((judge spec o r).successes ≡ pos (n + 1))
      × (((judge spec o r).result.success ≡ true)
          ↔ (to_nat (at_least_one spec.success_threshold) ≤ n + 1))
unfolding judge
judge-passes spec o r n e small pass = (ground arith, (λ h. ground arith, λ h. ground arith))

judge-fails :
    (spec : FailoverProbeSpec) (o : ProbeObservation) (r : ProbeResult) (n : ℕ)
    → o.consecutive_failures ≡ pos n
    → (o.success ≡ true) ↔ (n < to_nat (at_least_one spec.failure_threshold))
    → n + 1 < 2147483648
    → r.success ≡ false
    → ((judge spec o r).failures ≡ pos (n + 1))
      × (((judge spec o r).result.success ≡ true)
          ↔ (n + 1 < to_nat (at_least_one spec.failure_threshold)))
unfolding judge
judge-fails spec o r n e kept small fail =
    (ground arith, (λ h. ground (arith, kept), λ h. ground (arith, kept.1)))

observe_all-successes :
    (rs : List ProbeResult) (probe : FailoverProbe) (n now : ℕ)
    → (stored probe).consecutive_successes ≡ pos n
    → AllPass rs
    → n + length rs < 2147483648
    → ((stored (observe_all probe rs now)).consecutive_successes ≡ pos (n + length rs))
      × ((observe_all probe rs now).spec ≡ probe.spec)
unfolding observe_all
observe_all-successes [] probe n now e pass small = (e ∙ ap pos (omega arith), refl)
observe_all-successes (r ∷ rs) probe n now e (p, pass) small =
    let (_, count, _, spec) = stored-observe probe r now in
    let counted = (judge-passes probe.spec (stored probe) r n e (omega arith) p).0 in
    let rest =
      observe_all-successes rs (observe probe r now).1 (n + 1) now (count ∙ counted) pass
        (omega arith) in
    (rest.0 ∙ ap pos (omega arith), rest.1 ∙ spec)

-- A probe with no success in a row, that then succeeds in every execution, passes its gate exactly
-- from the execution on that reaches the success threshold (at least one), with counts that fit
-- an int32.
pub observe-passes :
    (probe : FailoverProbe) (rs : List ProbeResult) (r : ProbeResult) (now : ℕ)
    → (stored probe).consecutive_successes ≡ pos 0
    → AllPass (r ∷ rs)
    → length (r ∷ rs) < 2147483648
    → ((observe (observe_all probe rs now) r now).0.result.success ≡ true)
      ↔ (success_threshold probe ≤ length (r ∷ rs))
unfolding observe apply_probe_thresholds
observe-passes probe rs r now e (p, pass) small =
    let (count, spec) = observe_all-successes rs probe 0 now e pass (omega arith) in
    let gate =
      (judge-passes (observe_all probe rs now).spec (stored (observe_all probe rs now)) r
        (length rs) (count ∙ ap pos (omega arith)) (omega (arith, small)) p).1 in
    let bound = ap (λ x. to_nat (at_least_one x.success_threshold)) spec in
    (λ h. omega (arith, bound, gate.0 h), λ h. gate.1 (omega (arith, bound, h)))

-- Every result is a failure.
abbrev pub AllFail : List ProbeResult → Type 0
AllFail rs = All (λ r. r.success ≡ false) rs

observe_all-failures :
    (rs : List ProbeResult) (probe : FailoverProbe) (n now : ℕ)
    → (stored probe).consecutive_failures ≡ pos n
    → ((stored probe).success ≡ true) ↔ (n < failure_threshold probe)
    → AllFail rs
    → n + length rs < 2147483648
    → ((stored (observe_all probe rs now)).consecutive_failures ≡ pos (n + length rs))
      × (((stored (observe_all probe rs now)).success ≡ true)
          ↔ (n + length rs < failure_threshold probe))
      × ((observe_all probe rs now).spec ≡ probe.spec)
unfolding observe_all
observe_all-failures [] probe n now e kept fail small =
    (e ∙ ap pos (omega arith), (λ h. omega (arith, kept.0 h), λ h. kept.1 (omega arith)), refl)
observe_all-failures (r ∷ rs) probe n now e kept (f, fail) small =
    let (success, _, count, spec) = stored-observe probe r now in
    let (counted, held) = judge-fails probe.spec (stored probe) r n e kept (omega arith) f in
    let tolerated : ((stored (observe probe r now).1).success ≡ true)
        ↔ (n + 1 < failure_threshold (observe probe r now).1) =
      (
        λ h.
            subst (λ x. n + 1 < to_nat (at_least_one x.failure_threshold)) (sym spec)
              (held.0 (sym success ∙ h)),
        λ h.
            success
            ∙ held.1 (subst (λ x. n + 1 < to_nat (at_least_one x.failure_threshold)) spec h),
      ) in
    let (total, still, same) =
      observe_all-failures rs (observe probe r now).1 (n + 1) now (count ∙ counted) tolerated fail
        (omega arith) in
    let bound = ap (λ x. to_nat (at_least_one x.failure_threshold)) spec in
    (
      total ∙ ap pos (omega arith),
      (λ h. omega (arith, bound, still.0 h), λ h. still.1 (omega (arith, bound, h))),
      same ∙ spec,
    )

-- A probe that has passed, with no failure in a row, and that then fails in every execution, keeps
-- passing its gate exactly as long as the failures stay below the failure threshold (at least
-- one), with counts that fit an int32.
pub observe-tolerates :
    (probe : FailoverProbe) (rs : List ProbeResult) (r : ProbeResult) (now : ℕ)
    → (stored probe).success ≡ true
    → (stored probe).consecutive_failures ≡ pos 0
    → AllFail (r ∷ rs)
    → length (r ∷ rs) < 2147483648
    → ((observe (observe_all probe rs now) r now).0.result.success ≡ true)
      ↔ (length (r ∷ rs) < failure_threshold probe)
unfolding observe apply_probe_thresholds
observe-tolerates probe rs r now ready e (f, fail) small =
    let (count, kept, spec) =
      observe_all-failures rs probe 0 now e (λ h. ground arith, λ h. ready) fail (omega arith) in
    let bound = ap (λ x. to_nat (at_least_one x.failure_threshold)) spec in
    let gate =
      (judge-fails (observe_all probe rs now).spec (stored (observe_all probe rs now)) r (length rs)
        (count ∙ ap pos (omega arith))
        (λ h. omega (arith, bound, kept.0 h), λ h. kept.1 (omega (arith, bound, h)))
        (omega (arith, small)) f).1 in
    (λ h. omega (arith, bound, gate.0 h), λ h. gate.1 (omega (arith, bound, h)))
