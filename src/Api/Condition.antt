-- ===== src/Api/Condition.antt =====
-- SetCondition of api/v1/failoverip_state.go. A condition's message is trimmed by the white space of
-- Go's unicode.IsSpace and cut at 256 bytes of UTF-8.
pub mod Laws
use Prim.Native.Char.{Char, code}
use Prim.Native.String.{len, slice}
use foip_operator.Prelude.{
  ℕ, String, Bool, true, false, ◌&&◌, ◌||◌, not, List, [], ◌∷◌, ◌≡◌, refl, ◌≢◌, arith, ltb, leb,
  ◌==◌, if◌then◌else◌, str_eq, str_eq_iff, str_eq_refl, Option, none, some,
}
use foip_operator.Api.Types.{
  Condition, ConditionStatus, condition_true, condition_false, condition_unknown, FailoverIpStatus,
}

abbrev pub condition_ready : String
condition_ready = "Ready"

abbrev pub condition_stabilizing : String
condition_stabilizing = "Stabilizing"

abbrev pub condition_target_prepared : String
condition_target_prepared = "TargetPrepared"

abbrev pub condition_provider_converged : String
condition_provider_converged = "ProviderConverged"

abbrev pub condition_traffic_verified : String
condition_traffic_verified = "TrafficVerified"

abbrev pub condition_ownership_converged : String
condition_ownership_converged = "OwnershipConverged"

abbrev pub condition_cooldown : String
condition_cooldown = "Cooldown"

abbrev pub condition_degraded : String
condition_degraded = "Degraded"

abbrev pub condition_blocked : String
condition_blocked = "Blocked"

-- unicode.IsSpace.
is_space : ℕ → Bool
is_space c =
    (leb 9 c && leb c 13)
    || c == 32
    || c == 0x85
    || c == 0xa0
    || c == 0x1680
    || (leb 0x2000 c && leb c 0x200a)
    || c == 0x2028
    || c == 0x2029
    || c == 0x202f
    || c == 0x205f
    || c == 0x3000

trim_left : String → String
unfolding is_space
trim_left String.[] = ""
trim_left (String.◌∷◌ c s) = if is_space (code c) then trim_left s else String.◌∷◌ c s

-- The text without the white space at its end.
trim_right : String → String
unfolding is_space
trim_right String.[] = ""
trim_right (String.◌∷◌ c s) =
    let rest = trim_right s in if is_space (code c) && str_eq rest "" then "" else String.◌∷◌ c rest

-- strings.TrimSpace.
unfoldable pub trim_space : String → String
unfolding trim_left trim_right
trim_space s = trim_right (trim_left s)

-- The message as it is stored.
unfoldable pub bound_message : String → String
unfolding trim_space
bound_message m = let t = trim_space m in if ltb 256 (len t) then slice t 0 256 else t

status_eq : ConditionStatus → ConditionStatus → Bool
status_eq condition_true condition_true = true
status_eq condition_false condition_false = true
status_eq condition_unknown condition_unknown = true
status_eq _ _ = false

-- The loop over the stored conditions, with the append behind it.
pub put_condition : Condition → List Condition → List Condition
unfolding status_eq
put_condition new [] = new ∷ []
put_condition new (c ∷ cs) =
    if str_eq c.kind new.kind
    then (if status_eq c.status new.status
          && str_eq c.reason new.reason
          && str_eq c.message new.message
        then c ∷ cs
        else record new { observed_generation = c.observed_generation } ∷ cs)
    else c ∷ put_condition new cs

-- `newCondition` of SetCondition.
abbrev pub new_condition : String → ConditionStatus → String → String → ℕ → Condition
new_condition kind status reason message now = record {
  kind = kind;
  status = status;
  reason = reason;
  message = bound_message message;
  last_transition_time = now;
  observed_generation = 0;
}

unfoldable pub set_condition :
    FailoverIpStatus → String → ConditionStatus → String → String → ℕ → FailoverIpStatus
unfolding put_condition
set_condition s kind status reason message now = record s {
  conditions = put_condition (new_condition kind status reason message now) s.conditions;
}
