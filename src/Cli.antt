-- ===== src/Cli.antt =====
-- packages/cli/src/argv.ts: the arguments of the command line.
pub mod Flags
use syrotp.Prelude.{
  ℕ, Text, chars, same, starts_with, any, Bool, true, false, ◌&&◌, ◌||◌, List, [], ◌∷◌, ◌++◌,
  Option, none, some, find, ◌==◌, if◌then◌else◌,
}

pub data Command : Type 0 where
  help version doctor bootstrap receiver smoke loadtest unknown : Command

pub record ParsedArgs : Type 0 where
  pub command : Command
  pub rest : List Text
  pub unknown_token : Option Text
  pub help_topic : Option Text

abbrev pub head? : List Text → Option Text
head? [] = none
head? (a ∷ rest) = some a

abbrev pub tail : List Text → List Text
tail [] = []
tail (a ∷ rest) = rest

abbrev pub is_word : Text → List Text → Bool
is_word first words = any (same first) words

abbrev pub plain : Command → List Text → ParsedArgs
plain command rest = record {
  command = command;
  rest = rest;
  unknown_token = none;
  help_topic = none;
}

unfoldable pub parse_top_level : List Text → ParsedArgs
parse_top_level [] = plain help []
parse_top_level (first ∷ rest) =
    if is_word first (chars "-h" ∷ chars "--help" ∷ [])
    then record (plain help rest) { help_topic = head? rest }
    else if is_word first (chars "help" ∷ [])
    then record (plain help (tail rest)) { help_topic = head? rest }
    else if is_word first (chars "-v" ∷ chars "--version" ∷ chars "version" ∷ [])
    then plain version rest
    else if is_word first (chars "doctor" ∷ [])
    then plain doctor rest
    else if is_word first (chars "bootstrap" ∷ [])
    then plain bootstrap rest
    else if is_word first (chars "receiver" ∷ [])
    then plain receiver rest
    else if is_word first (chars "smoke" ∷ [])
    then plain smoke rest
    else if is_word first (chars "loadtest" ∷ [])
    then plain loadtest rest
    else record (plain unknown rest) { unknown_token = some first }

-- An entry of `FlagParseSpec`. Names and aliases are not empty, and no name is given twice.
pub record Flag : Type 0 where
  pub name : Text
  pub value : Bool
  pub alias : Option Text

pub data FlagValue : Type 0 where
  text : Text → FlagValue
  on : FlagValue

pub record FlagParseResult : Type 0 where
  pub values : List (Text × FlagValue)
  pub positionals : List Text
  pub unknown : Option Text

-- `values[name] = v`
abbrev pub set_value : Text → FlagValue → List (Text × FlagValue) → List (Text × FlagValue)
set_value name v [] = (name, v) ∷ []
set_value name v ((n, w) ∷ values) =
    if same n name then (n, v) ∷ values else (n, w) ∷ set_value name v values

-- `aliasMap[name]`: the later of two entries counts.
abbrev pub alias_target : List Flag → Text → Option Text
alias_target [] name = none
alias_target (f ∷ spec) name = elim (alias_target spec name) [
  | some target ↦ some target
  | none ↦ elim f.alias [ none ↦ none | some alias ↦ if same alias name then some f.name else none ]
]

-- The names that an object literal inherits from `Object.prototype`
abbrev pub inherited : List Text
inherited =
    chars "constructor"
    ∷ chars "__defineGetter__"
    ∷ chars "__defineSetter__"
    ∷ chars "hasOwnProperty"
    ∷ chars "__lookupGetter__"
    ∷ chars "__lookupSetter__"
    ∷ chars "isPrototypeOf"
    ∷ chars "propertyIsEnumerable"
    ∷ chars "toString"
    ∷ chars "valueOf"
    ∷ chars "__proto__"
    ∷ chars "toLocaleString"
    ∷ []

-- What `spec.flags` has under a name: an entry of its own, a member of `Object.prototype`, nothing
pub data Entry : Type 0 where
  own : Flag → Entry
  member missing : Entry

abbrev pub entry_of : List Flag → Text → Entry
entry_of spec name = elim (find (λ f. same f.name name) spec) [
  | some f ↦ own f
  | none ↦ if is_word name inherited then member else missing
]

-- `-x`: the alias map is looked up first, and it inherits too; no flag is found under a member.
abbrev pub short_entry : List Flag → Text → Entry
short_entry spec name = elim (alias_target spec name) [
  | some target ↦ entry_of spec target
  | none ↦ if is_word name inherited then missing else entry_of spec name
]

abbrev pub short_name : List Flag → Text → Text
short_name spec name = elim (alias_target spec name) [ some target ↦ target | none ↦ name ]

-- `tok.replace(/^-+/, "")`
abbrev pub strip_dashes : Text → Text
strip_dashes [] = []
strip_dashes (c ∷ s) = if c == b'-' then strip_dashes s else c ∷ s

-- The text before the first `=`, and what follows it
abbrev pub split_at_equals : Text → Text × Option Text
split_at_equals [] = ([], none)
split_at_equals (c ∷ s) =
    let (before, after) = split_at_equals s in
    if c == b'=' then ([], some s) else (c ∷ before, after)

-- What one argument is
pub data Token : Type 0 where
  ends_flags positional refused ignored : Token
  turns_on : Text → Token
  sets : Text → Text → Token
  wants_value : Text → Token

abbrev pub token_of_entry : Text → Option Text → Entry → Token
token_of_entry name inline missing = refused
token_of_entry name inline member = if same name (chars "__proto__") then ignored else turns_on name
token_of_entry name inline (own f) =
    if f.value
    then elim inline [ none ↦ wants_value name | some v ↦ sets name v ]
    else turns_on name

unfoldable pub token : List Flag → Text → Token
token spec tok =
    let (name, inline) = split_at_equals (strip_dashes tok) in
    if same tok (chars "--")
    then ends_flags
    else if starts_with tok (chars "--")
    then token_of_entry name inline (entry_of spec name)
    else if starts_with tok (chars "-")
    then token_of_entry (short_name spec name) inline (short_entry spec name)
    else positional

abbrev pub parsed : List (Text × FlagValue) → List Text → FlagParseResult
parsed values positionals = record { values = values; positionals = positionals; unknown = none }

abbrev pub refusal : List (Text × FlagValue) → List Text → Text → FlagParseResult
refusal values positionals tok = record {
  values = values;
  positionals = positionals;
  unknown = some tok;
}

-- The loop over `argv`
unfoldable pub parse_from :
    List Flag → List Text → List (Text × FlagValue) → List Text → FlagParseResult
parse_from spec [] values positionals = parsed values positionals
parse_from spec (tok ∷ []) values positionals = elim (token spec tok) [
  | ends_flags ↦ parsed values positionals
  | positional ↦ parsed values (positionals ++ (tok ∷ []))
  | refused ↦ refusal values positionals tok
  | ignored ↦ parsed values positionals
  | turns_on name ↦ parsed (set_value name on values) positionals
  | sets name v ↦ parsed (set_value name (text v) values) positionals
  | wants_value name ↦ refusal values positionals tok
]
parse_from spec (tok ∷ next ∷ argv) values positionals = elim (token spec tok) [
  | ends_flags ↦ parsed values (positionals ++ (next ∷ argv))
  | positional ↦ parse_from spec (next ∷ argv) values (positionals ++ (tok ∷ []))
  | refused ↦ refusal values positionals tok
  | ignored ↦ parse_from spec (next ∷ argv) values positionals
  | turns_on name ↦ parse_from spec (next ∷ argv) (set_value name on values) positionals
  | sets name v ↦ parse_from spec (next ∷ argv) (set_value name (text v) values) positionals
  | wants_value name ↦ parse_from spec argv (set_value name (text next) values) positionals
]

unfoldable pub parse_flags : List Text → List Flag → FlagParseResult
unfolding parse_from
parse_flags argv spec = parse_from spec argv [] []
