-- ===== src/Providers/Prompts.antt =====
-- How the adapters for Anthropic and Gemini take the system prompt out of a conversation.
use Prim.Native.String.{◌++◌ as ◌+++◌}
use cloud_mesh.Common.{String, Bool, Option, none, some, List, [], ◌∷◌, str_eq, if◌then◌else◌}
use cloud_mesh.Chat.{UnifiedMessage}

abbrev pub is_system : UnifiedMessage → Bool
is_system m = str_eq m.role "system"

-- The loop over the messages: the system parts, and the other messages.
abbrev pub split_message :
    UnifiedMessage → List String × List UnifiedMessage → List String × List UnifiedMessage
split_message m (parts, rest) = if is_system m then (m.content ∷ parts, rest) else (parts, m ∷ rest)

unfoldable pub split_messages : List UnifiedMessage → List String × List UnifiedMessage
split_messages [] = ([], [])
split_messages (m ∷ ms) = split_message m (split_messages ms)

-- `join("\n")`.
abbrev pub join_lines : List String → String
join_lines [] = ""
join_lines (s ∷ []) = s
join_lines (s ∷ t ∷ ss) = s +++ ("\n" +++ join_lines (t ∷ ss))

abbrev pub system_of : List String → Option String
system_of [] = none
system_of (s ∷ ss) = some (join_lines (s ∷ ss))

unfoldable pub split_system_prompt : List UnifiedMessage → Option String × List UnifiedMessage
unfolding split_messages
split_system_prompt ms = let (parts, rest) = split_messages ms in (system_of parts, rest)
