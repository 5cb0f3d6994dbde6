-- ===== src/Probe/Phase/Gate.antt =====
-- The gate of a phase is passed only by probes that were run and judged as passed.
use mathlib.Core.Path.{subst}
use foip_operator.Prelude.{
  ℤ, String, true, false, Bool-cases, inl, inr, List, [], ◌∷◌, All, ◌≡◌, refl, sym, ap, ◌∙◌,
}
use foip_operator.Prelude.Text.{str_lt}
use foip_operator.Api.Types.{FailoverIp, FailoverProbe, FailoverProbeSpec, ProbePhase, all_probes}
use foip_operator.Controller.Env.{ok, Result-cases}
use foip_operator.Probe.{ProbeResult, aggregate, observe}
use foip_operator.Probe.Laws.{aggregate-Composed}
use foip_operator.Probe.Phase.{
  Prober, Progress, insert_name, sort_names, take_composition, resolve_probe_spec, run_probe,
  record_result, persist, evaluate_probe, applies, evaluate_ref, evaluate_refs, begin_gate,
  judge_gate, evaluate_gate, evaluate_probe_phase,
}

-- A sorted list has the members of the list.
All-insert_name :
    (P : String → Type 0) (r : String) (qs : List String)
    → All P (insert_name r qs)
    → P r × All P qs
unfolding insert_name
All-insert_name P r [] h = h
All-insert_name P r (q ∷ qs) h = elim (Bool-cases (str_lt q r)) [
  | inr first ↦ rw (first, insert_name) at h
  | inl later ↦
      let (here, rest) : P q × All P (insert_name r qs) = rw (later, insert_name) at h in
      let (found, others) = All-insert_name P r qs rest in (found, (here, others))
]

All-sort_names :
    (P : String → Type 0) (names : List String) → All P (sort_names names) → All P names
unfolding sort_names
All-sort_names P [] h = tt
All-sort_names P (n ∷ ns) h =
    let (first, rest) = All-insert_name P n (sort_names ns) h in (first, All-sort_names P ns rest)

abbrev Succeeds : ProbeResult → Type 0
Succeeds r = r.success ≡ true

module _ (prober : Prober) (foip : FailoverIp) (phase : ProbePhase) where
  -- The probe was resolved and run, and its result is judged by its thresholds.
  pub record Ran (resource : FailoverProbe) : Type 0 where
    pub spec : FailoverProbeSpec
    pub result : ProbeResult
    pub resolved : resolve_probe_spec prober foip resource.spec ≡ ok spec
    pub run : run_probe prober spec ≡ ok result

  abbrev pub judged : (resource : FailoverProbe) → Ran resource → ProbeResult
  judged resource ran = (observe resource ran.result prober.clock).0.result

  -- The probe was loaded, and it is of another phase, or it ran and is judged as passed.
  pub data Shown (name : String) : Type 0 where
    elsewhere :
        (resource : FailoverProbe)
        → prober.load name ≡ ok resource
        → applies prober phase resource.spec ≡ false
        → Shown name
    shown :
        (resource : FailoverProbe)
        → prober.load name ≡ ok resource
        → applies prober phase resource.spec ≡ true
        → (ran : Ran resource) → (judged resource ran).success ≡ true
        → Shown name

  -- The result of the probe is the newest.
  record RanAs (resource : FailoverProbe) (p q : Progress) : Type 0 where
    ran : Ran resource
    results : q.results ≡ judged resource ran ∷ p.results
    composition : q.composition ≡ p.composition

  -- A round that goes through.
  data Round (name : String) (p q : Progress) : Type 0 where
    skipped :
        (resource : FailoverProbe)
        → prober.load name ≡ ok resource
        → applies prober phase resource.spec ≡ false
        → p ≡ q
        → Round name p q
    counted :
        (resource : FailoverProbe)
        → prober.load name ≡ ok resource
        → applies prober phase resource.spec ≡ true
        → RanAs resource p q
        → Round name p q

  record_result-results :
      (resource : FailoverProbe) (p q : Progress) (result : ProbeResult)
      → record_result prober resource p result ≡ ok q
      → (q.results ≡ (observe resource result prober.clock).0.result ∷ p.results)
        × (q.composition ≡ p.composition)
  unfolding record_result
  record_result-results resource p q result h =
      let observed = (observe resource result prober.clock).1 in
      elim (Result-cases (persist prober observed)) [
        | inl (e, failed) ↦ absurd (cc (rw (failed, record_result) at h))
        | inr (_, stored) ↦
            let written : record p {
              results = (observe resource result prober.clock).0.result ∷ p.results;
            }
                ≡ q =
              cc (rw (stored, record_result) at h) in
            (ap (λ k. k.results) (sym written), ap (λ k. k.composition) (sym written))
      ]

  evaluate_probe-Ran :
      (resource : FailoverProbe) (name : String) (p q : Progress)
      → foip.spec.probe_composition ≡ all_probes
      → evaluate_probe prober foip resource name p ≡ ok q
      → RanAs resource p q
  unfolding evaluate_probe take_composition
  evaluate_probe-Ran resource name p q all h =
      let own : take_composition foip resource.spec p ≡ ok p = simp (take_composition, all) in
      elim (Result-cases (resolve_probe_spec prober foip resource.spec)) [
        | inl (e, failed) ↦ absurd (cc (rw (failed, evaluate_probe) at h))
        | inr (spec, resolved) ↦ elim (Result-cases (run_probe prober spec)) [
          | inl (e, failed) ↦ absurd (cc (rw (resolved, own, failed, evaluate_probe) at h))
          | inr (result, run) ↦
              let (results, composition) =
                record_result-results resource p q result
                  (rw (resolved, own, run, evaluate_probe) at h) in
              record {
                ran = record { spec = spec; result = result; resolved = resolved; run = run };
                results = results;
                composition = composition;
              }
        ]
      ]

  evaluate_ref-Round :
      (name : String) (p q : Progress)
      → foip.spec.probe_composition ≡ all_probes
      → evaluate_ref prober foip phase name p ≡ ok q
      → Round name p q
  unfolding evaluate_ref
  evaluate_ref-Round name p q all h = elim (Result-cases (prober.load name)) [
    | inl (e, failed) ↦ absurd (cc (rw (failed, evaluate_ref) at h))
    | inr (resource, loaded) ↦ elim (Bool-cases (applies prober phase resource.spec)) [
      | inr other ↦ skipped resource loaded other (cc (rw (loaded, other, evaluate_ref) at h))
      | inl mine ↦
          counted resource loaded mine
            (evaluate_probe-Ran resource name p q all (rw (loaded, mine, evaluate_ref) at h))
    ]
  ]

  Round-composition :
      (name : String) (p q : Progress) → Round name p q → q.composition ≡ p.composition
  Round-composition name p q (skipped resource loaded other same) =
      ap (λ k. k.composition) (sym same)
  Round-composition name p q (counted resource loaded mine ran) = ran.composition

  -- What a round shows of its probe, if its results succeed.
  Round-Shown :
      (name : String) (p q : Progress)
      → Round name p q
      → All Succeeds q.results
      → Shown name × All Succeeds p.results
  Round-Shown name p q (skipped resource loaded other same) success =
      (elsewhere resource loaded other, subst (λ k. All Succeeds k.results) (sym same) success)
  Round-Shown name p q (counted resource loaded mine ran) success =
      let both : All Succeeds (judged resource ran.ran ∷ p.results) =
        subst (λ rs. All Succeeds rs) ran.results success in
      (shown resource loaded mine ran.ran both.0, both.1)

  evaluate_refs-Shown :
      (names : List String) (p q : Progress)
      → foip.spec.probe_composition ≡ all_probes
      → evaluate_refs prober foip phase names p ≡ ok q
      → (q.composition ≡ p.composition)
        × (All Succeeds q.results → All Shown names × All Succeeds p.results)
  unfolding evaluate_refs
  evaluate_refs-Shown [] p q all h =
      let same : p ≡ q = cc h in
      (
        ap (λ k. k.composition) (sym same),
        λ success. (tt, subst (λ k. All Succeeds k.results) (sym same) success),
      )
  evaluate_refs-Shown (name ∷ names) p q all h =
      elim (Result-cases (evaluate_ref prober foip phase name p)) [
        | inl (e, failed) ↦ absurd (cc (rw (failed, evaluate_refs) at h))
        | inr (later, done) ↦
            let round = evaluate_ref-Round name p later all done in
            let (kept, rest) =
              evaluate_refs-Shown names later q all (rw (done, evaluate_refs) at h) in
            (
              kept ∙ Round-composition name p later round,
              λ success.
                  let (others, before) = rest success in
                  let (here, earlier) = Round-Shown name p later round before in
                  ((here, others), earlier),
            )
      ]

  judge_gate-Succeeds :
      (quorum : ℤ) (results : List ProbeResult)
      → judge_gate prober phase all_probes quorum results ≡ ok tt
      → All Succeeds results
  unfolding judge_gate
  judge_gate-Succeeds quorum [] h = tt
  judge_gate-Succeeds quorum (r ∷ rs) h =
      elim (Bool-cases (aggregate all_probes quorum (r ∷ rs)).success) [
        | inl success ↦ (aggregate-Composed all_probes quorum r rs).0 success
        | inr failure ↦ absurd (cc (rw (failure, judge_gate) at h))
      ]

  begin_gate-all :
      foip.spec.probe_composition ≡ all_probes → (begin_gate prober foip).composition ≡ all_probes
  begin_gate-all all = rw all refl

  evaluate_gate-Shown :
      (refs : List String)
      → foip.spec.probe_composition ≡ all_probes
      → evaluate_gate prober foip phase refs ≡ ok tt
      → All Shown refs
  unfolding evaluate_gate
  evaluate_gate-Shown [] all h = tt
  evaluate_gate-Shown (ref ∷ refs) all h =
      elim (Result-cases
        (evaluate_refs prober foip phase (sort_names (ref ∷ refs)) (begin_gate prober foip))) [
          | inl (e, failed) ↦ absurd (cc (rw (failed, evaluate_gate) at h))
          | inr (p, done) ↦
              let (kept, shows) =
                evaluate_refs-Shown (sort_names (ref ∷ refs)) (begin_gate prober foip) p all done in
              let judged_all : judge_gate prober phase all_probes p.quorum p.results ≡ ok tt =
                subst (λ c. judge_gate prober phase c p.quorum p.results ≡ ok tt)
                  (kept ∙ begin_gate-all all) (rw (done, evaluate_gate) at h) in
              All-sort_names Shown (ref ∷ refs)
                (shows (judge_gate-Succeeds p.quorum p.results judged_all)).0
        ]

  -- A phase that asks for all probes passes its gate only if every probe that the resource refers to
  -- was loaded, and each that is of the phase or continuous had its target resolved, was run, and is
  -- judged as passed by its thresholds.
  pub evaluate_probe_phase-Shown :
      foip.spec.probe_composition ≡ all_probes
      → evaluate_probe_phase prober foip phase ≡ ok tt
      → All Shown foip.spec.probes
  evaluate_probe_phase-Shown all h = evaluate_gate-Shown foip.spec.probes all h
