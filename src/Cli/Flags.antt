-- ===== src/Cli/Flags.antt =====
-- The command line read back: what `parseFlags` makes of arguments that are written from flags.
use mathlib.Core.List.{append_assoc, append-nil}
use syrotp.Prelude.{
  ◌≡◌, refl, ap, sym, ◌∙◌, Text, chars, same, starts_with, All, true, false, List, [], ◌∷◌, ◌++◌,
  arith, Option, none, some, or_else, find, ◌==◌, if◌then◌else◌,
}
use syrotp.Cli.{
  Flag, FlagValue, text, on, parsed, set_value, alias_target, split_at_equals, turns_on, sets,
  wants_value, positional, token, parse_from, parse_flags, token_of_entry, entry_of, short_name,
  short_entry, own,
}

-- A flag as it is written: `--name`, or `-a` for an alias
pub data Key : Type 0 where
  long : Flag → Key
  short : Text → Flag → Key

abbrev pub key_flag : Key → Flag
key_flag (long f) = f
key_flag (short alias f) = f

abbrev pub print_key : Key → Text
print_key (long f) = chars "--" ++ f.name
print_key (short alias f) = chars "-" ++ alias

pub data Argument : Type 0 where
  switch : Key → Argument
  separate joined : Key → Text → Argument
  word : Text → Argument

abbrev pub print : Argument → List Text
print (switch k) = print_key k ∷ []
print (separate k v) = print_key k ∷ v ∷ []
print (joined k v) = (print_key k ++ (b'=' ∷ v)) ∷ []
print (word w) = w ∷ []

abbrev pub print_all : List Argument → List Text → List Text
print_all [] rest = rest
print_all (a ∷ args) rest = print a ++ print_all args rest

-- What the arguments mean
abbrev pub given : List Argument → List (Text × FlagValue) → List (Text × FlagValue)
given [] values = values
given (switch k ∷ args) values = given args (set_value (key_flag k).name on values)
given (separate k v ∷ args) values = given args (set_value (key_flag k).name (text v) values)
given (joined k v ∷ args) values = given args (set_value (key_flag k).name (text v) values)
given (word w ∷ args) values = given args values

abbrev pub words : List Argument → List Text
words [] = []
words (switch k ∷ args) = words args
words (separate k v ∷ args) = words args
words (joined k v ∷ args) = words args
words (word w ∷ args) = w ∷ words args

-- A name that is not empty, does not begin with a dash and has no `=`
abbrev pub IsName : Text → Type 0
IsName [] = ⊥
IsName (c ∷ s) = ((c == b'-') ≡ false) × All (λ d. (d == b'=') ≡ false) (c ∷ s)

abbrev pub IsKey : List Flag → Key → Type 0
IsKey spec (long f) = IsName f.name × (find (λ g. same g.name f.name) spec ≡ some f)
IsKey spec (short alias f) =
    IsName alias
    × (alias_target spec alias ≡ some f.name)
    × (find (λ g. same g.name f.name) spec ≡ some f)

abbrev pub IsArgument : List Flag → Argument → Type 0
IsArgument spec (switch k) = IsKey spec k × ((key_flag k).value ≡ false)
IsArgument spec (separate k v) = IsKey spec k × ((key_flag k).value ≡ true)
IsArgument spec (joined k v) = IsKey spec k × ((key_flag k).value ≡ true)
IsArgument spec (word w) = starts_with w (chars "-") ≡ false

split_name : (s : Text) → All (λ d. (d == b'=') ≡ false) s → split_at_equals s ≡ (s, none)
split_name [] h = refl
split_name (c ∷ s) (n, h) = rw (n, split_name s h) refl

split_inline :
    (s v : Text)
    → All (λ d. (d == b'=') ≡ false) s
    → split_at_equals (s ++ (b'=' ∷ v)) ≡ (s, some v)
split_inline [] v h = refl
split_inline (c ∷ s) v (n, h) = rw (n, split_inline s v h) refl

long_token :
    (spec : List Flag) (name after : Text) (inline : Option Text)
    → IsName name
    → split_at_equals (name ++ after) ≡ (name, inline)
    → token spec (chars "--" ++ (name ++ after)) ≡ token_of_entry name inline (entry_of spec name)
unfolding token same
long_token spec [] after inline h e = absurd h
long_token spec (c ∷ s) after inline (n, h) e = rw (n, e) refl

short_token :
    (spec : List Flag) (alias after : Text) (inline : Option Text)
    → IsName alias
    → split_at_equals (alias ++ after) ≡ (alias, inline)
    → token spec (chars "-" ++ (alias ++ after))
      ≡ token_of_entry (short_name spec alias) inline (short_entry spec alias)
unfolding token same
short_token spec [] after inline h e = absurd h
short_token spec (c ∷ s) after inline (n, h) e = rw (n, e) refl

IsName-All : (s : Text) → IsName s → All (λ d. (d == b'=') ≡ false) s
IsName-All [] h = absurd h
IsName-All (c ∷ s) (n, h) = h

entry_found :
    (spec : List Flag) (f : Flag)
    → find (λ g. same g.name f.name) spec ≡ some f
    → entry_of spec f.name ≡ own f
entry_found spec f e = rw (e, entry_of) refl

alias_found :
    (spec : List Flag) (alias : Text) (f : Flag)
    → alias_target spec alias ≡ some f.name
    → (short_name spec alias ≡ f.name) × (short_entry spec alias ≡ entry_of spec f.name)
alias_found spec alias f e = (rw (e, short_name) refl, rw (e, short_entry) refl)

own_entry :
    (spec : List Flag) (k : Key) (after : Text) (inline : Option Text)
    → IsKey spec k
    → ((name : Text) → IsName name → split_at_equals (name ++ after) ≡ (name, inline))
    → token spec (print_key k ++ after) ≡ token_of_entry (key_flag k).name inline (own (key_flag k))
own_entry spec (long f) after inline (n, found) split =
    long_token spec f.name after inline n (split f.name n)
    ∙ ap (token_of_entry f.name inline) (entry_found spec f found)
own_entry spec (short alias f) after inline (n, target, found) split =
    short_token spec alias after inline n (split alias n)
    ∙ (let (by_name, by_entry) = alias_found spec alias f target in
        rw (by_name, by_entry, entry_found spec f found) refl)

-- A key alone, and a key with `=` and a value
token_key :
    (spec : List Flag) (k : Key)
    → IsKey spec k
    → token spec (print_key k)
      ≡ (if (key_flag k).value then wants_value (key_flag k).name else turns_on (key_flag k).name)
token_key spec k h =
    ap (token spec) (sym (append-nil (print_key k)))
    ∙ own_entry spec k [] none h
        (λ name n. ap split_at_equals (append-nil name) ∙ split_name name (IsName-All name n))

token_inline :
    (spec : List Flag) (k : Key) (v : Text)
    → IsKey spec k
    → (key_flag k).value ≡ true
    → token spec (print_key k ++ (b'=' ∷ v)) ≡ sets (key_flag k).name v
token_inline spec k v h e =
    own_entry spec k (b'=' ∷ v) (some v) h (λ name n. split_inline name v (IsName-All name n))
    ∙ rw e refl

token_word :
    (spec : List Flag) (w : Text) → starts_with w (chars "-") ≡ false → token spec w ≡ positional
unfolding token same
token_word spec [] h = refl
token_word spec (c ∷ w) h = ground arith

step_on :
    (spec : List Flag) (tok : Text) (argv : List Text) (values : List (Text × FlagValue))
    (ps : List Text) (name : Text)
    → token spec tok ≡ turns_on name
    → parse_from spec (tok ∷ argv) values ps ≡ parse_from spec argv (set_value name on values) ps
unfolding parse_from
step_on spec tok [] values ps name e = rw (e, parse_from) refl
step_on spec tok (next ∷ argv) values ps name e = rw (e, parse_from) refl

step_sets :
    (spec : List Flag) (tok : Text) (argv : List Text) (values : List (Text × FlagValue))
    (ps : List Text) (name v : Text)
    → token spec tok ≡ sets name v
    → parse_from spec (tok ∷ argv) values ps
      ≡ parse_from spec argv (set_value name (text v) values) ps
unfolding parse_from
step_sets spec tok [] values ps name v e = rw (e, parse_from) refl
step_sets spec tok (next ∷ argv) values ps name v e = rw (e, parse_from) refl

step_wants :
    (spec : List Flag) (tok v : Text) (argv : List Text) (values : List (Text × FlagValue))
    (ps : List Text) (name : Text)
    → token spec tok ≡ wants_value name
    → parse_from spec (tok ∷ v ∷ argv) values ps
      ≡ parse_from spec argv (set_value name (text v) values) ps
unfolding parse_from
step_wants spec tok v argv values ps name e = rw (e, parse_from) refl

step_word :
    (spec : List Flag) (tok : Text) (argv : List Text) (values : List (Text × FlagValue))
    (ps : List Text)
    → token spec tok ≡ positional
    → parse_from spec (tok ∷ argv) values ps ≡ parse_from spec argv values (ps ++ (tok ∷ []))
unfolding parse_from
step_word spec tok [] values ps e = rw (e, parse_from) refl
step_word spec tok (next ∷ argv) values ps e = rw (e, parse_from) refl

-- What follows the arguments: nothing, or `--` and words that are taken as they are
abbrev pub ending : Option (List Text) → List Text
ending none = []
ending (some rest) = chars "--" ∷ rest

parse_end :
    (spec : List Flag) (rest : Option (List Text)) (values : List (Text × FlagValue))
    (ps : List Text)
    → parse_from spec (ending rest) values ps ≡ parsed values (ps ++ or_else rest [])
unfolding parse_from token same
parse_end spec none values ps = ap (parsed values) (sym (append-nil ps))
parse_end spec (some []) values ps = ap (parsed values) (sym (append-nil ps))
parse_end spec (some (w ∷ rest)) values ps = refl

parse_from-print :
    (spec : List Flag) (args : List Argument) (rest : Option (List Text))
    (values : List (Text × FlagValue)) (ps : List Text)
    → All (IsArgument spec) args
    → parse_from spec (print_all args (ending rest)) values ps
      ≡ parsed (given args values) (ps ++ (words args ++ or_else rest []))
parse_from-print spec [] rest values ps h = parse_end spec rest values ps
parse_from-print spec (switch k ∷ args) rest values ps ((key, kind), h) =
    step_on spec (print_key k) (print_all args (ending rest)) values ps (key_flag k).name
      (token_key spec k key ∙ rw kind refl)
    ∙ parse_from-print spec args rest (set_value (key_flag k).name on values) ps h
parse_from-print spec (separate k v ∷ args) rest values ps ((key, kind), h) =
    step_wants spec (print_key k) v (print_all args (ending rest)) values ps (key_flag k).name
      (token_key spec k key ∙ rw kind refl)
    ∙ parse_from-print spec args rest (set_value (key_flag k).name (text v) values) ps h
parse_from-print spec (joined k v ∷ args) rest values ps ((key, kind), h) =
    step_sets spec (print_key k ++ (b'=' ∷ v)) (print_all args (ending rest)) values ps
      (key_flag k).name v (token_inline spec k v key kind)
    ∙ parse_from-print spec args rest (set_value (key_flag k).name (text v) values) ps h
parse_from-print spec (word w ∷ args) rest values ps (plain_word, h) =
    step_word spec w (print_all args (ending rest)) values ps (token_word spec w plain_word)
    ∙ parse_from-print spec args rest values (ps ++ (w ∷ [])) h
    ∙ ap (parsed (given args values)) (append_assoc ps (w ∷ []) (words args ++ or_else rest []))

-- A command line that is written from flags, words and, after `--`, any further words is read back
-- as what it means, with no argument unknown: a flag by its name or an alias, its value as the next
-- argument, whatever that begins with, or after `=`, and the words in their order. A later value of
-- a flag replaces an earlier one.
pub parse_flags-print :
    (spec : List Flag) (args : List Argument) (rest : Option (List Text))
    → All (IsArgument spec) args
    → parse_flags (print_all args (ending rest)) spec
      ≡ parsed (given args []) (words args ++ or_else rest [])
unfolding parse_flags
parse_flags-print spec args rest h = parse_from-print spec args rest [] [] h
