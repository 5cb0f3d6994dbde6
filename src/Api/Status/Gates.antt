-- ===== src/Api/Status/Gates.antt =====
-- The safety gates: no legal run of phases reaches Succeeded without passing each of them.
use foip_operator.Prelude.{ℕ, ◌+◌, ◌≤◌, ◌<◌, true, List, [], ◌∷◌, ◌≡◌, arith}
use native.Mathlib.Decide.{dec_lt}
use foip_operator.Prelude.Lists.{Occurs, here, there}
use foip_operator.Api.Types.{
  FailoverPhase, selecting, stabilizing, preparing_target, target_prepared, routing_provider,
  verifying_provider, verifying_traffic, committing, cleaning_stale_owners, succeeded,
}
use foip_operator.Api.Status.{can_transition}

-- A run of legal transitions, with the phases that it leaves, newest last.
pub data Run : FailoverPhase → List FailoverPhase → FailoverPhase → Type 0 where
  stay : {p : FailoverPhase} → Run p [] p
  step :
      {p q r : FailoverPhase} {visited : List FailoverPhase}
      → can_transition p q ≡ true
      → Run q visited r
      → Run p (p ∷ visited) r

-- The place of a phase on the way to Succeeded; the phases off that way have place 0.
abbrev pub progress : FailoverPhase → ℕ
progress selecting = 1
progress stabilizing = 2
progress preparing_target = 3
progress target_prepared = 4
progress routing_provider = 5
progress verifying_provider = 6
progress verifying_traffic = 7
progress committing = 8
progress cleaning_stale_owners = 9
progress succeeded = 10
progress _ = 0

-- A legal transition advances by one place at most.
can_transition-progress :
    (p q : FailoverPhase) → can_transition p q ≡ true → progress q ≤ progress p + 1
unfolding can_transition
can_transition-progress p q h = ground arith

progress-injective : (p q : FailoverPhase) → progress p ≡ progress q → 0 < progress p → p ≡ q
progress-injective p q e h = ground arith

-- A run that ends further on than a gate, and starts at or before it, leaves the gate.
gate_passed :
    {p r : FailoverPhase} {visited : List FailoverPhase} (g : FailoverPhase)
    → Run p visited r
    → 0 < progress g
    → progress p ≤ progress g
    → progress g < progress r
    → Occurs g visited
gate_passed g stay h lo hi = absurd (omega arith)
gate_passed g (step {p = p} {q = q} e run) h lo hi = elim (dec_lt (progress p) (progress g)) [
  | yes before ↦ there (gate_passed g run h (omega (arith, can_transition-progress p q e)) hi)
  | no at ↦ here (progress-injective p g (omega arith) (omega arith))
]

-- Every run of legal transitions from Selecting to Succeeded leaves each of the nine phases that
-- have a place before Succeeded: stabilization, preparation, routing, both verifications, the
-- commit and the cleanup cannot be skipped.
pub Run-passes_gates :
    {visited : List FailoverPhase} (g : FailoverPhase)
    → Run selecting visited succeeded
    → 0 < progress g
    → progress g < progress succeeded
    → Occurs g visited
Run-passes_gates g run h k = gate_passed g run h (omega arith) k
