-- ===== src/Endpoint/Runs.antt =====
-- The endpoint grammar at concrete texts.
use drawbridge.Base.{◌≡◌, refl, none, some}
use drawbridge.Base.Bytes.{bytes, has_prefix, cut, lacks, bytes_beq}
use drawbridge.Base.Numerals.{parse_uint, digits_value}
use drawbridge.Endpoint.HostPort.{
  cut_text, cut_last, bracketed, at_last_colon, split_host_port, join_host_port,
}
use drawbridge.Endpoint.{Endpoint, scheme_tcp, text_of, parse, parse_scheme, parse_tcp, port}
use drawbridge.Endpoint.RoundTrip.{parse-text_of}

abbrev local_agent : Endpoint
local_agent = record { scheme = scheme_tcp; addr = bytes "localhost:4777" }

-- Brackets that the host does not need, and no scheme.
parses_local_agent : parse (bytes "[localhost]:4777") ≡ some local_agent
unfolding parse parse_scheme parse_tcp cut_text cut_last bracketed at_last_colon split_host_port
    join_host_port has_prefix cut lacks bytes_beq parse_uint digits_value
parses_local_agent = refl

parse-text_of_example : parse (text_of local_agent) ≡ some local_agent
parse-text_of_example = parse-text_of (bytes "[localhost]:4777") local_agent parses_local_agent

rejects_two_colons : parse (bytes "tcp://::1:4777") ≡ none
unfolding parse parse_scheme parse_tcp cut_text cut_last bracketed at_last_colon split_host_port
    join_host_port has_prefix cut lacks bytes_beq parse_uint digits_value
rejects_two_colons = refl

agent_port : port local_agent ≡ 4777
unfolding port cut_last at_last_colon split_host_port lacks bytes_beq parse_uint digits_value cut
agent_port = refl
