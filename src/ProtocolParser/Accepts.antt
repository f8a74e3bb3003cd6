-- ===== src/ProtocolParser/Accepts.antt =====
-- What `parse` accepts.
use linux_iot_gateway.Common.{
  ℕ, true, false, List, [], ◌∷◌, none, some, ◌≡◌, ◌↔◌, refl, ap, subst, sym, ◌∙◌, arith, Bytes,
  if◌then◌else◌, is_empty, list_eq, list_eq_sound, All, inl, inr, Bool-cases, Option-cases,
}
use linux_iot_gateway.ProtocolParser
use linux_iot_gateway.ProtocolParser.{
  Command, open_hand, grab, release, stop, unknown, command_map, is_blank, to_upper, upper,
  find_first_not_of, find_last_not_of, trimmed, normalize_input, parse, is_valid, command_to_string,
  to_executor_command,
}
use linux_iot_gateway.ProtocolParser.Trim.{IsSolid, Trimmed, trimmed-word, trimmed-Trimmed}

-- A name of the command in any case, with blanks at most around it.
abbrev pub Denotes : Bytes → Command → Type 0
Denotes raw c = (word : Bytes) × (upper word ≡ command_to_string c) × Trimmed raw word

abbrev NamesCommand : Bytes × Command → Type 0
NamesCommand (name, c) = name ≡ command_to_string c

find_sound :
    (key : Bytes) (c : Command) (m : List (Bytes × Command))
    → All NamesCommand m
    → ProtocolParser.find key m ≡ some c
    → key ≡ command_to_string c
unfolding ProtocolParser.find
find_sound key c [] h e = cc
find_sound key c ((name, command) ∷ m) (hn, h) e = elim (Bool-cases (list_eq name key)) [
  | inl hit ↦
      let same : command ≡ c = ground arith in
      sym (list_eq_sound name key hit) ∙ hn ∙ ap command_to_string same
  | inr miss ↦ find_sound key c m h (rw miss at e)
]

command_map-names : All NamesCommand command_map
unfolding command_to_string
command_map-names = (refl, (refl, (refl, (refl, tt))))

parse-name : Bytes → Command
unfolding ProtocolParser.find
parse-name name =
    if is_empty name
    then unknown
    else elim (ProtocolParser.find name command_map) [ none ↦ unknown | some command ↦ command ]

parse-name_sound :
    (name : Bytes) (c : Command)
    → is_valid c ≡ true
    → parse-name name ≡ c
    → name ≡ command_to_string c
unfolding is_valid parse-name
parse-name_sound name c v e = elim (Bool-cases (is_empty name)) [
  | inl nothing ↦ absurd (ground arith)
  | inr _ ↦ elim (Option-cases (ProtocolParser.find name command_map)) [
    | inl missing ↦ absurd (ground arith)
    | inr (command, found) ↦
        let same : command ≡ c = ground arith in
        find_sound name command command_map command_map-names found ∙ ap command_to_string same
  ]
]

parse-name_complete : (c : Command) → is_valid c ≡ true → parse-name (command_to_string c) ≡ c
unfolding is_valid parse-name command_to_string
parse-name_complete open_hand v = refl
parse-name_complete grab v = refl
parse-name_complete release v = refl
parse-name_complete stop v = refl
parse-name_complete unknown v = cc

IsSolid-upper : (c : ℕ) → IsSolid (to_upper c) → IsSolid c
IsSolid-upper c h = ground arith

All-IsSolid-upper : (word : Bytes) → All IsSolid (upper word) → All IsSolid word
All-IsSolid-upper [] h = tt
All-IsSolid-upper (c ∷ word) (hc, h) = (IsSolid-upper c hc, All-IsSolid-upper word h)

command_to_string-IsSolid : (c : Command) → All IsSolid (command_to_string c)
unfolding command_to_string
command_to_string-IsSolid open_hand = (refl, (refl, (refl, (refl, tt))))
command_to_string-IsSolid grab = (refl, (refl, (refl, (refl, tt))))
command_to_string-IsSolid release = (refl, (refl, (refl, (refl, (refl, (refl, (refl, tt)))))))
command_to_string-IsSolid stop = (refl, (refl, (refl, (refl, tt))))
command_to_string-IsSolid unknown = (refl, (refl, (refl, (refl, (refl, (refl, (refl, tt)))))))

command_to_string-not_empty : (c : Command) → is_empty (command_to_string c) ≡ false
unfolding command_to_string
command_to_string-not_empty open_hand = refl
command_to_string-not_empty grab = refl
command_to_string-not_empty release = refl
command_to_string-not_empty stop = refl
command_to_string-not_empty unknown = refl

normalize-Denotes :
    (raw word : Bytes) (c : Command)
    → upper word ≡ command_to_string c
    → Trimmed raw word
    → normalize_input raw ≡ command_to_string c
unfolding normalize_input
normalize-Denotes raw [] c e t =
    absurd (ground (arith, command_to_string-not_empty c, ap is_empty e))
normalize-Denotes raw (x ∷ word) c e t =
    let solid =
      All-IsSolid-upper (x ∷ word) (subst (All IsSolid) (sym e) (command_to_string-IsSolid c)) in
    ap (λ s. upper (trimmed s (find_first_not_of s) (find_last_not_of s))) t.splits
    ∙ ap upper (trimmed-word t.before word t.after x t.before_blank solid t.after_blank)
    ∙ e

-- An input is parsed to a command other than UNKNOWN exactly if it is the command's name, in
-- capitals or small letters, with nothing but blanks around it.
pub parse_iff : (raw : Bytes) (c : Command) → is_valid c ≡ true → (parse raw ≡ c) ↔ Denotes raw c
unfolding parse parse-name normalize_input
parse_iff raw c v = (
  λ e. (
    trimmed raw (find_first_not_of raw) (find_last_not_of raw),
    parse-name_sound (normalize_input raw) c v e,
    trimmed-Trimmed raw,
  ),
  λ (word, e, t). ap parse-name (normalize-Denotes raw word c e t) ∙ parse-name_complete c v,
)
