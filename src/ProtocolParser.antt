-- ===== src/ProtocolParser.antt =====
-- cpp_modules/protocol_parser: `ProtocolParser` of include/protocol_parser.h and
-- src/protocol_parser.cpp.
pub mod Trim
pub mod Accepts
use linux_iot_gateway.Common.{
  ℕ, suc, ◌+◌, ◌-◌, Bool, true, false, ◌||◌, ◌&&◌, List, [], ◌∷◌, Option, none, some, Bytes, codes,
  ◌==◌, leb, if◌then◌else◌, take, drop, is_empty, list_eq,
}

-- `Open` is `open_hand` here.
pub data Command : Type 0 where
  open_hand grab release stop unknown : Command

-- The constructor's `commandMap_`, in the order of its literal.
abbrev pub command_map : List (Bytes × Command)
command_map =
    (codes "OPEN", open_hand)
    ∷ (codes "GRAB", grab)
    ∷ (codes "RELEASE", release)
    ∷ (codes "STOP", stop)
    ∷ []

-- One of ` \t\r\n`.
abbrev pub is_blank : ℕ → Bool
is_blank c = c == b' ' || c == b'\t' || c == b'\r' || c == b'\n'

abbrev pub find_first_not_of : Bytes → Option ℕ
find_first_not_of [] = none
find_first_not_of (c ∷ s) =
    if is_blank c
    then elim (find_first_not_of s) [ none ↦ none | some i ↦ some (suc i) ]
    else some 0

abbrev pub find_last_not_of : Bytes → Option ℕ
find_last_not_of [] = none
find_last_not_of (c ∷ s) = elim (find_last_not_of s) [
  | none ↦ if is_blank c then none else some 0
  | some i ↦ some (suc i)
]

-- `std::toupper` in the C locale.
abbrev pub to_upper : ℕ → ℕ
to_upper c = if leb b'a' c && leb c b'z' then c - 32 else c

abbrev pub upper : Bytes → Bytes
upper [] = []
upper (c ∷ s) = to_upper c ∷ upper s

-- The part from the first to the last character that is not blank. Where there is a first there is
-- a last; the source does not look.
unfoldable pub trimmed : Bytes → Option ℕ → Option ℕ → Bytes
trimmed raw_input none last = []
trimmed raw_input (some first) none = []
trimmed raw_input (some first) (some last) = take (last - first + 1) (drop first raw_input)

unfoldable pub normalize_input : Bytes → Bytes
unfolding trimmed
normalize_input raw_input =
    upper (trimmed raw_input (find_first_not_of raw_input) (find_last_not_of raw_input))

unfoldable pub find : Bytes → List (Bytes × Command) → Option Command
find key [] = none
find key ((name, command) ∷ m) = if list_eq name key then some command else find key m

unfoldable pub parse : Bytes → Command
unfolding find
parse raw_input =
    let normalized_input = normalize_input raw_input in
    if is_empty normalized_input
    then unknown
    else elim (find normalized_input command_map) [ none ↦ unknown | some command ↦ command ]

unfoldable pub is_valid : Command → Bool
is_valid unknown = false
is_valid _ = true

unfoldable pub command_to_string : Command → Bytes
command_to_string open_hand = codes "OPEN"
command_to_string grab = codes "GRAB"
command_to_string release = codes "RELEASE"
command_to_string stop = codes "STOP"
command_to_string unknown = codes "UNKNOWN"

unfoldable pub to_executor_command : Command → Bytes
to_executor_command open_hand = codes "HAND_OPEN"
to_executor_command grab = codes "HAND_GRAB"
to_executor_command release = codes "HAND_RELEASE"
to_executor_command stop = codes "HAND_STOP"
to_executor_command unknown = codes "HAND_NONE"
