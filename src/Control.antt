-- ===== src/Control.antt =====
-- src/control_command_processor.cpp: the commands of the control socket, in the C locale.
pub mod Normal
use edge_link.Prelude.{
  ℕ, ◌-◌, Bool, ◌&&◌, ◌||◌, [], ◌∷◌, leb, eqb, if◌then◌else◌, Text, codes, is_empty,
}
use edge_link.Prelude.Keys.{nat_eq, text_beq, text_eq}

-- `std::isspace`
abbrev pub is_space : ℕ → Bool
is_space c = eqb c 32 || (leb 9 c && leb c 13)

-- `std::toupper`
abbrev pub upper : ℕ → ℕ
upper c = if leb 97 c && leb c 122 then c - 32 else c

-- From the first character that is no space: `find_if_not(begin, end)`.
unfoldable pub trim_front : Text → Text
trim_front [] = []
trim_front (c ∷ cs) = if is_space c then trim_front cs else c ∷ cs

-- Up to the last character that is no space: `find_if_not(rbegin, rend).base()`.
unfoldable pub trim_back : Text → Text
trim_back [] = []
trim_back (c ∷ cs) = let rest = trim_back cs in if is_empty rest && is_space c then [] else c ∷ rest

unfoldable pub trim : Text → Text
trim text = trim_back (trim_front text)

unfoldable pub to_upper : Text → Text
to_upper [] = []
to_upper (c ∷ cs) = upper c ∷ to_upper cs

-- The response to a command that is trimmed and in upper case.
unfoldable pub respond : Text → Text
respond command =
    if is_empty command
    then codes "ERROR EMPTY_COMMAND"
    else if text_beq command (codes "PING")
    then codes "OK PONG"
    else if text_beq command (codes "STATUS")
    then codes "OK RUNNING"
    else if text_beq command (codes "HELP")
    then codes "OK COMMANDS PING STATUS HELP"
    else codes "ERROR UNKNOWN_COMMAND"

unfoldable pub process : Text → Text
process request = respond (to_upper (trim request))
