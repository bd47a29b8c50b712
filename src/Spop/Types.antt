-- ===== src/Spop/Types.antt =====
-- spoe_forge/spop/constants.py and spoe_forge/spop/spop_types.py: the protocol's enumerations with
-- their numbers, and the values, flags, metadata and actions that frames carry.
use spoe_forge.Prelude.{ℕ, ◌-◌, ◌^◌, ◌<◌, List, Bool, ◌==◌, if◌then◌else◌, All}
use spoe_forge.Prelude.Int.{ℤ, pos, negsuc, ◌≤ℤ◌}
use spoe_forge.Prelude.Buffer.{Bytes, IsByte}
use spoe_forge.Prelude.Text.{Text}
use spoe_forge.Prelude.Dict.{Dict}
use spoe_forge.Spop.Result.{Result, ok, err, value_error}

abbrev pub int32_min : ℤ
int32_min = negsuc (2 ^ 31 - 1)

abbrev pub int32_max : ℤ
int32_max = pos (2 ^ 31 - 1)

abbrev pub int64_min : ℤ
int64_min = negsuc (2 ^ 63 - 1)

abbrev pub int64_max : ℤ
int64_max = pos (2 ^ 63 - 1)

abbrev pub uint32_max : ℤ
uint32_max = pos (2 ^ 32 - 1)

abbrev pub uint64_max : ℤ
uint64_max = pos (2 ^ 64 - 1)

abbrev pub bool_true : ℕ
bool_true = 0x10

abbrev pub bool_false : ℕ
bool_false = 0x00

abbrev pub type_mask : ℕ
type_mask = 0x0F

abbrev pub flag_mask : ℕ
flag_mask = 0xF0

abbrev pub fin_flag : ℕ
fin_flag = 0x01

abbrev pub abort_flag : ℕ
abort_flag = 0x02

pub data DataType : Type 0 where
  null bool int32 uint32 int64 uint64 ipv4 ipv6 string binary : DataType

abbrev pub data_type_number : DataType → ℕ
data_type_number DataType.null = 0
data_type_number DataType.bool = 1
data_type_number DataType.int32 = 2
data_type_number DataType.uint32 = 3
data_type_number DataType.int64 = 4
data_type_number DataType.uint64 = 5
data_type_number DataType.ipv4 = 6
data_type_number DataType.ipv6 = 7
data_type_number DataType.string = 8
data_type_number DataType.binary = 9

-- `DataType(n)`
abbrev pub data_type_of : ℕ → Result DataType
data_type_of n =
    if n == 0
    then ok DataType.null
    else if n == 1
    then ok DataType.bool
    else if n == 2
    then ok DataType.int32
    else if n == 3
    then ok DataType.uint32
    else if n == 4
    then ok DataType.int64
    else if n == 5
    then ok DataType.uint64
    else if n == 6
    then ok DataType.ipv4
    else if n == 7
    then ok DataType.ipv6
    else if n == 8
    then ok DataType.string
    else if n == 9
    then ok DataType.binary
    else err value_error

pub data FrameType : Type 0 where
  unset haproxy_hello haproxy_disconnect notify agent_hello agent_disconnect ack : FrameType

abbrev pub frame_type_number : FrameType → ℕ
frame_type_number unset = 0
frame_type_number haproxy_hello = 1
frame_type_number haproxy_disconnect = 2
frame_type_number notify = 3
frame_type_number agent_hello = 101
frame_type_number agent_disconnect = 102
frame_type_number ack = 103

-- `FrameType(n)`
abbrev pub frame_type_of : ℕ → Result FrameType
frame_type_of n =
    if n == 0
    then ok unset
    else if n == 1
    then ok haproxy_hello
    else if n == 2
    then ok haproxy_disconnect
    else if n == 3
    then ok notify
    else if n == 101
    then ok agent_hello
    else if n == 102
    then ok agent_disconnect
    else if n == 103
    then ok ack
    else err value_error

pub data ActionType : Type 0 where
  set_var unset_var : ActionType

abbrev pub action_type_number : ActionType → ℕ
action_type_number set_var = 1
action_type_number unset_var = 2

-- `ActionType(n)`
abbrev pub action_type_of : ℕ → Result ActionType
action_type_of n = if n == 1 then ok set_var else if n == 2 then ok unset_var else err value_error

-- `ActionNBArgs`
abbrev pub action_nb_args : ActionType → ℕ
action_nb_args set_var = 3
action_nb_args unset_var = 2

pub data ActionScope : Type 0 where
  process session transaction request response : ActionScope

abbrev pub action_scope_number : ActionScope → ℕ
action_scope_number process = 0
action_scope_number session = 1
action_scope_number transaction = 2
action_scope_number request = 3
action_scope_number response = 4

-- `ActionScope(n)`
abbrev pub action_scope_of : ℕ → Result ActionScope
action_scope_of n =
    if n == 0
    then ok process
    else if n == 1
    then ok session
    else if n == 2
    then ok transaction
    else if n == 3
    then ok request
    else if n == 4
    then ok response
    else err value_error

-- `SpoaDataType`. An address is its number; `unsupported` is a Python object of any other type, which
-- a handler may hand over though the alias does not admit it.
pub data Value : Type 0 where
  null : Value
  bool : Bool → Value
  int : ℤ → Value
  ipv4 : ℕ → Value
  ipv6 : ℕ → Value
  bytes : Bytes → Value
  str : Text → Value
  unsupported : Value

-- `Messages`
abbrev pub Messages : Type 0
Messages = List (Text × Dict Value)

pub record Flags : Type 0 where
  pub fin : Bool
  pub abort : Bool

pub record MetaData : Type 0 where
  pub flags : Flags
  pub stream_id : ℤ
  pub frame_id : ℤ

-- `other_action` is an object of neither class, which a handler may hand over in its list.
pub data Action : Type 0 where
  set_var_action : ActionScope → Text → Value → Action
  unset_var_action : ActionScope → Text → Action
  other_action : Action

-- Text that latin-1 can carry.
abbrev pub IsLatin1 : Text → Type 0
IsLatin1 s = All IsByte s

-- The values that the wire can carry: integers of 64 bits, addresses in range, bytes, latin-1 text.
abbrev pub IsWire : Value → Type 0
IsWire Value.null = Unit {0}
IsWire (Value.bool b) = Unit {0}
IsWire (Value.int v) = (int64_min ≤ℤ v) × (v ≤ℤ int64_max)
IsWire (Value.ipv4 n) = n < 2 ^ 32
IsWire (Value.ipv6 n) = n < 2 ^ 128
IsWire (Value.bytes b) = All IsByte b
IsWire (Value.str s) = IsLatin1 s
IsWire Value.unsupported = ⊥
