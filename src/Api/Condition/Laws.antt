-- ===== src/Api/Condition/Laws.antt =====
-- SetCondition against a map from condition types to conditions.
use foip_operator.Prelude.{
  ℕ, String, true, List, [], ◌∷◌, Option, none, some, ◌≡◌, ◌≢◌, arith, if◌then◌else◌, str_eq,
  str_eq_iff, ap,
}
use foip_operator.Api.Types.{Condition, ConditionStatus, FailoverIpStatus}
use foip_operator.Api.Condition.{
  set_condition, put_condition, bound_message, new_condition, status_eq,
}

-- The first stored condition of a type.
pub find_condition : String → List Condition → Option Condition
find_condition k [] = none
find_condition k (c ∷ cs) = if str_eq c.kind k then some c else find_condition k cs

-- What a found condition says.
abbrev pub Says : Option Condition → ConditionStatus → String → String → Type 0
Says none status reason message = ⊥
Says (some c) status reason message =
    (c.status ≡ status) × (c.reason ≡ reason) × (c.message ≡ message)

status_eq_sound : (a b : ConditionStatus) → status_eq a b ≡ true → a ≡ b
unfolding status_eq
status_eq_sound a b h = ground arith

status_eq_refl : (a : ConditionStatus) → status_eq a a ≡ true
unfolding status_eq
status_eq_refl a = ground arith

find-put_self :
    (new : Condition) (cs : List Condition)
    → Says (find_condition new.kind (put_condition new cs)) new.status new.reason new.message
unfolding find_condition put_condition
find-put_self new [] = ground (arith, str_eq_iff new.kind new.kind)
find-put_self new (c ∷ cs) = ground (
  arith,
  str_eq_iff c.kind new.kind,
  str_eq_iff new.kind new.kind,
  str_eq_iff c.reason new.reason,
  str_eq_iff c.message new.message,
  status_eq_sound c.status new.status,
  find-put_self new cs,
)

find-put_ne :
    (k : String) (new : Condition) (cs : List Condition)
    → k ≢ new.kind
    → find_condition k (put_condition new cs) ≡ find_condition k cs
unfolding find_condition put_condition
find-put_ne k new [] h = ground (arith, str_eq_iff new.kind k)
find-put_ne k new (c ∷ cs) h = ground (
  arith,
  str_eq_iff c.kind k,
  str_eq_iff new.kind k,
  str_eq_iff c.kind new.kind,
  find-put_ne k new cs h,
)

put_put :
    (new : Condition) (later : ℕ) (cs : List Condition)
    → put_condition (record new { last_transition_time = later }) (put_condition new cs)
      ≡ put_condition new cs
unfolding put_condition
put_put new later [] = ground (
  arith,
  str_eq_iff new.kind new.kind,
  str_eq_iff new.reason new.reason,
  str_eq_iff new.message new.message,
  status_eq_refl new.status,
)
put_put new later (c ∷ cs) = ground (
  arith,
  str_eq_iff c.kind new.kind,
  str_eq_iff new.kind new.kind,
  str_eq_iff new.reason new.reason,
  str_eq_iff new.message new.message,
  status_eq_refl new.status,
  put_put new later cs,
)

-- After SetCondition the condition of that type has the status, the reason and the trimmed and
-- bounded message that were set.
pub set_condition-Says :
    (s : FailoverIpStatus) (kind reason message : String) (status : ConditionStatus) (now : ℕ)
    → Says
        (find_condition kind (set_condition s kind status reason message now).conditions)
        status
        reason
        (bound_message message)
unfolding set_condition
set_condition-Says s kind reason message status now =
    find-put_self (new_condition kind status reason message now) s.conditions

-- SetCondition leaves the conditions of all other types as they are.
set_condition-others :
    (s : FailoverIpStatus) (kind reason message : String) (status : ConditionStatus) (now : ℕ)
    (other : String)
    → other ≢ kind
    → find_condition other (set_condition s kind status reason message now).conditions
      ≡ find_condition other s.conditions
unfolding set_condition
set_condition-others s kind reason message status now other h =
    find-put_ne other (new_condition kind status reason message now) s.conditions h

-- Setting the same condition again at a later time changes nothing: its transition time stays.
set_condition_idem :
    (s : FailoverIpStatus) (kind reason message : String) (status : ConditionStatus) (now later : ℕ)
    → let t = set_condition s kind status reason message now in
      set_condition t kind status reason message later ≡ t
unfolding set_condition
set_condition_idem s kind reason message status now later =
    ap (λ cs. record s { conditions = cs })
      (put_put (new_condition kind status reason message now) later s.conditions)
