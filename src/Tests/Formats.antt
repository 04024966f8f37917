-- ===== src/Tests/Formats.antt =====
-- A registered format.
use agent_handshake_protocol.Prelude.{refl}
use agent_handshake_protocol.Formats.{get_format}
use agent_handshake_protocol.Formats.Foundational.{persuasion}
use agent_handshake_protocol.Formats.Sound.{IsSound, get_format-IsSound}

get_format-IsSound_example : IsSound "persuasion" persuasion
unfolding get_format
get_format-IsSound_example = get_format-IsSound "persuasion" persuasion refl
