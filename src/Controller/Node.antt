-- ===== src/Controller/Node.antt =====
-- corev1.Node, as far as the controllers read it, and conditionIs of
-- internal/controller/node_scoring.go.
use foip_operator.Prelude.{
  String, Bool, true, false, List, [], ◌∷◌, ◌≡◌, refl, arith, ◌||◌, ◌&&◌, not, if◌then◌else◌,
  str_eq,
}
use foip_operator.Api.Types.{ConditionStatus, condition_true, condition_false, condition_unknown}

pub data NodeConditionType : Type 0 where
  network_unavailable ready pid_pressure memory_pressure disk_pressure : NodeConditionType
  other_condition : String → NodeConditionType

pub record NodeCondition : Type 0 where
  pub type : NodeConditionType
  pub status : ConditionStatus

pub data AddressType : Type 0 where
  internal_ip external_ip other_address : AddressType

pub record NodeAddress : Type 0 where
  pub type : AddressType
  pub address : String

-- An annotation that is absent is the empty string, as a read of the map gives it.
pub record Node : Type 0 where
  pub name : String
  pub primary_mac : String
  pub server_id : String
  pub unschedulable : Bool
  pub conditions : List NodeCondition
  pub addresses : List NodeAddress

type_eq : NodeConditionType → NodeConditionType → Bool
type_eq network_unavailable network_unavailable = true
type_eq ready ready = true
type_eq pid_pressure pid_pressure = true
type_eq memory_pressure memory_pressure = true
type_eq disk_pressure disk_pressure = true
type_eq (other_condition s) (other_condition t) = str_eq s t
type_eq _ _ = false

status_is : ConditionStatus → ConditionStatus → Bool
status_is condition_true condition_true = true
status_is condition_false condition_false = true
status_is condition_unknown condition_unknown = true
status_is _ _ = false

condition_among : List NodeCondition → NodeConditionType → ConditionStatus → Bool
unfolding type_eq status_is
condition_among [] type status = false
condition_among (c ∷ cs) type status =
    if type_eq c.type type then status_is c.status status else condition_among cs type status

-- The first condition of the type decides.
unfoldable pub condition_is : Node → NodeConditionType → ConditionStatus → Bool
unfolding condition_among
condition_is n type status = condition_among n.conditions type status

-- A type of condition has one status, so a node is not both ready and not ready.
condition_among_unique :
    (cs : List NodeCondition) (type : NodeConditionType)
    → condition_among cs type condition_true ≡ true
    → condition_among cs type condition_false ≡ false
unfolding condition_among
condition_among_unique [] type h = refl
condition_among_unique (c ∷ cs) type h = ground (arith, condition_among_unique cs type)

-- Whether the node has a condition of the type at all.
abbrev pub has_condition : Node → NodeConditionType → Bool
has_condition n type =
    condition_is n type condition_true
    || condition_is n type condition_false
    || condition_is n type condition_unknown

condition_among_false :
    (cs : List NodeCondition) (type : NodeConditionType)
    → condition_among cs type condition_false ≡ (
        (condition_among cs type condition_true
          || condition_among cs type condition_false
          || condition_among cs type condition_unknown)
        && not (condition_among cs type condition_true)
        && not (condition_among cs type condition_unknown))
unfolding condition_among
condition_among_false [] type = refl
condition_among_false (c ∷ cs) type = ground (arith, condition_among_false cs type)

-- A status is False exactly if the condition is there and neither True nor Unknown.
pub condition_is_false :
    (n : Node) (type : NodeConditionType)
    → condition_is n type condition_false ≡ (
        has_condition n type
        && not (condition_is n type condition_true)
        && not (condition_is n type condition_unknown))
unfolding condition_is
condition_is_false n type = condition_among_false n.conditions type
