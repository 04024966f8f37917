-- ===== src/Tests/Core.antt =====
-- Codes, patterns and requirements at concrete inputs.
use agent_handshake_protocol.Prelude.{◌≡◌, refl, inl, []}
use agent_handshake_protocol.Prelude.Exec.{ok}
use agent_handshake_protocol.Prelude.Text.{has_space, is_space}
use agent_handshake_protocol.Core.Address.{AgentAddress}
use agent_handshake_protocol.Core.Pattern.{AddressPattern, parse, str, validate, all_wild}
use agent_handshake_protocol.Core.Pattern.Generality.{IsBroader}
use agent_handshake_protocol.Core.Pattern.RoundTrip.{parse-str}

abbrev pub analyst : AgentAddress
analyst = record {
  org = "tifin";
  role = "analyst";
  domain = "finance";
  subdomain = "risk";
  accept = "sj";
  lifecycle = "session";
  instance_name = "a1";
  params = [];
}

abbrev pub operator : AgentAddress
operator = record analyst { role = "operator"; accept = "sjbe"; instance_name = "o1" }

abbrev pub finance : AddressPattern
finance = record {
  org = "tifin";
  role = "*";
  domain = "finance";
  subdomain = "*";
  accept = "j";
  lifecycle = "*";
  instance_name = "*";
}

all_wild-IsBroader : IsBroader all_wild finance
all_wild-IsBroader = record {
  org = inl refl;
  role = inl refl;
  domain = inl refl;
  subdomain = inl refl;
  lifecycle = inl refl;
  instance_name = inl refl;
  accept = inl refl;
}

parse-str_example : parse (str finance) ≡ ok finance
unfolding validate has_space is_space
parse-str_example =
    parse-str finance refl (refl, (refl, (refl, (refl, (refl, (refl, (refl, tt)))))))
