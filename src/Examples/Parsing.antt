-- ===== src/Examples/Parsing.antt =====
-- A document with a system, a card, an interface, a flow and a forward rule, read from its events.
use packet_wyrm.Base.{
  ℕ, ◌<◌, ◌≡◌, refl, true, false, Option, none, some, List, [], ◌∷◌, length, All, Text, codes,
  words_eq, if◌then◌else◌, if-both, Meets, Result, ok, err, arith, subst, words_eq,
}
use packet_wyrm.Base.Texts.{
  scan_digits, converted, unsigned_digits, signed_digits, strtoull, decimal, decimal_digits,
}
use packet_wyrm.Yaml.{
  Node, scalar, mapping, sequence, Pairs, end, pair, nil, cons, map_get, count_items, has_key,
}
use packet_wyrm.Yaml.Build.{Event, build_node, parse, map_append, seq_append}
use packet_wyrm.Yaml.Events.{first, after, Distinct}
use packet_wyrm.Yaml.RoundTrip.{document, parse-document}
use packet_wyrm.Yaml.Sound.{build_node-some}
use packet_wyrm.Scalar.{
  Net, IsInet, parse_u8, parse_u16, parse_u32, parse_u64, parse_buf, without_underscores, accepted,
  parse_ipv4, big_endian,
}
use packet_wyrm.Scalar.Numbers.{parse_u64-digits, parse_u64-decimal, parse_u64-wraps}
use packet_wyrm.Config.{Config}
use packet_wyrm.Config.Parse.Fields.{
  required_field, optional_field, optional_map, copy_str, one_of, req_seq,
}
use packet_wyrm.Config.Parse.Cards.{parse_system, parse_card}
use packet_wyrm.Config.Parse.Entries.{parse_flow}
use packet_wyrm.Config.Parse.Traffic.{parse_traffic}
use packet_wyrm.Config.Parse.Addresses.{parse_ip_endpoint, parse_v4, zero16, no_ipv6}
use packet_wyrm.Config.Parse.FlowBlocks.{no_l2, no_modifiers, no_encap}
use packet_wyrm.Config.Validate.{check_flow_traffic}
use packet_wyrm.Config.Parse.Root.{parse_root, parse_string_ex, root_keys}
use packet_wyrm.Config.Parse.InRange.{IsConfig, IsSystem}
use packet_wyrm.Config.Parse.RootRanges.{
  KnownKeys, parse_string_ex-IsConfig, parse_root-known, parse_string_ex-check_flow_traffic,
}

-- A resolver that knows two addresses.
abbrev few_addresses : Net
few_addresses = record {
  inet_pton4 = λ s.
      if words_eq s (codes "10.0.0.1")
      then some (10 ∷ 0 ∷ 0 ∷ 1 ∷ [])
      else if words_eq s (codes "10.0.0.2")
      then some (10 ∷ 0 ∷ 0 ∷ 2 ∷ [])
      else none;
  inet_pton6 = λ s.
      if words_eq s (codes "::1")
      then some (0 ∷ 0 ∷ 0 ∷ 0 ∷ 0 ∷ 0 ∷ 0 ∷ 0 ∷ 0 ∷ 0 ∷ 0 ∷ 0 ∷ 0 ∷ 0 ∷ 0 ∷ 1 ∷ [])
      else none;
}

abbrev FourBytes : List ℕ → Type 0
FourBytes bs = (length bs ≡ 4) × All (λ b. b < 256) bs

abbrev SixteenBytes : List ℕ → Type 0
SixteenBytes bs = (length bs ≡ 16) × All (λ b. b < 256) bs

found : (P : List ℕ → Type 0) (o : Option (List ℕ)) (bs : List ℕ) → Meets P o → o ≡ some bs → P bs
found P none bs m e = absurd (cc)
found P (some xs) bs m e = subst P (cc) m

few_addresses-IsInet : IsInet few_addresses
few_addresses-IsInet = record {
  four_bytes = λ s bs. found FourBytes _ bs (
      if-both (Meets FourBytes) (words_eq s (codes "10.0.0.1")) _ _ (omega arith)
        (if-both (Meets FourBytes) (words_eq s (codes "10.0.0.2")) _ _ (omega arith) tt));
  sixteen_bytes = λ s bs.
      found SixteenBytes _ bs
        (if-both (Meets SixteenBytes) (words_eq s (codes "::1")) _ _ (omega arith) tt);
}

abbrev field : Text → Text → Pairs → Pairs
field key value rest = pair key (scalar value) rest

abbrev port0 : Node
port0 =
    mapping (field (codes "local_port") (codes "0") (field (codes "global_port") (codes "7") end))

abbrev card0 : Node
card0 = mapping (
    field (codes "id") (codes "1") (
      field (codes "pci") (codes "0000:03:00.0")
        (pair (codes "ports") (sequence (cons port0 nil)) end)))

abbrev system0 : Node
system0 = mapping (
    field (codes "name") (codes "lab")
      (field (codes "mode") (codes "multi-card") (field (codes "default_speed") (codes "10g") end)))

abbrev flow0 : Node
flow0 = mapping (
    field (codes "id") (codes "5") (
      field (codes "tx_global_port") (codes "7") (
        field (codes "rx_global_port") (codes "7") (
          pair (codes "ipv4")
            (mapping
              (field (codes "src") (codes "10.0.0.1") (field (codes "dst") (codes "10.0.0.2") end)))
            (pair (codes "udp")
              (mapping (
                field (codes "src_port") (codes "1000")
                  (field (codes "dst_port") (codes "2000") end)))
              (pair (codes "traffic")
                (mapping (
                  field (codes "frame_len") (codes "128")
                    (field (codes "rate_pps") (codes "1_000") end)))
                end))))))

abbrev root0 : Node
root0 = mapping (
    pair (codes "system") system0 (
      pair (codes "cards") (sequence (cons card0 nil))
        (pair (codes "flows") (sequence (cons flow0 nil)) end)))

abbrev config_of : Result Config → Option Config
config_of (ok c) = some c
config_of (err e) = none

abbrev config0 : Config
config0 = record {
  system = record {
    name = codes "lab";
    mode = codes "multi-card";
    default_speed = codes "10g";
    stats_poll_interval_ms = 100;
    control_socket = codes "/run/packetwyrm/packetwyrmd.sock";
    secret = [];
  };
  cards =
      record {
        id = 1;
        name = codes "card1";
        pci = codes "0000:03:00.0";
        ports = record { local_port = 0; global_port = 7; name = codes "p7" } ∷ [];
      }
      ∷ [];
  logical_if = [];
  flows =
      record {
        id = 5;
        name = [];
        tx_global_port = 7;
        rx_global_port = 7;
        logical_if_id = 0;
        l2 = no_l2;
        ipv4 = record { present = true; src = 0x0A000001; dst = 0x0A000002; ttl = 64; dscp = 0 };
        ipv6 = no_ipv6;
        udp = record { src_port = 1000; dst_port = 2000; l4_proto = 17; tcp_flags = 2 };
        traffic = record {
          frame_template = 0;
          frame_len_fixed_set = true;
          frame_len_fixed = 128;
          frame_len_min = 0;
          frame_len_max = 0;
          frame_len_step = 0;
          rate_bps = 0;
          rate_pps = 1000;
          burst_size = 1;
          burst_gap_ticks = 0;
          payload_mode = 1;
          payload_seed = 0;
          insert_sequence = true;
          insert_timestamp = true;
        };
        meas = record { loss = false; latency = false; jitter = false };
        modifiers = no_modifiers;
        background = false;
        encap = no_encap;
        rx_expect = 0;
        match_udp_dst_mask = 0xFFFF;
        match_ipv4_dst_mask = 0xFFFFFFFF;
        match_ipv6_dst_set = false;
        match_ipv6_dst_mask = zero16;
        match_ipv6_src_set = false;
        match_ipv6_src_mask = zero16;
        classify_header = false;
      }
      ∷ [];
  forwards = [];
}

root0_parses : parse_root few_addresses false root0 ≡ ok config0
unfolding parse_root parse_system parse_card parse_flow parse_traffic parse_ip_endpoint parse_ipv4
    parse_u8 parse_u16 parse_u32 parse_u64 parse_buf without_underscores strtoull signed_digits
    unsigned_digits converted scan_digits accepted decimal decimal_digits required_field
    optional_field optional_map copy_str one_of parse_v4 map_get big_endian req_seq count_items
root0_parses = refl

root0-Distinct : Distinct root0
unfolding has_key
root0-Distinct = ground arith

document0_parses : parse_string_ex few_addresses false (document root0) ≡ ok config0
unfolding parse_string_ex parse after
document0_parses = rw (parse-document root0 root0-Distinct) root0_parses

parse-document_example : parse (document root0) ≡ some root0
parse-document_example = parse-document root0 root0-Distinct

-- A key that is there twice is refused.
twice_refused :
    build_node 9 Event.mapping_start (
      Event.scalar_event (codes "id")
      ∷ Event.scalar_event (codes "1")
      ∷ Event.scalar_event (codes "id")
      ∷ Event.scalar_event (codes "2")
      ∷ Event.mapping_end
      ∷ [])
    ≡ none
unfolding build_node has_key map_append
twice_refused = refl

abbrev one_item : Node
one_item = sequence (cons (scalar (codes "a")) nil)

build_node-some_example :
    (Event.sequence_start ≡ first one_item)
    × (Event.scalar_event (codes "a") ∷ Event.sequence_end ∷ Event.stream_end ∷ []
        ≡ after one_item (Event.stream_end ∷ []))
    × Distinct one_item
build_node-some_example =
    build_node-some 5 Event.sequence_start
      (Event.scalar_event (codes "a") ∷ Event.sequence_end ∷ Event.stream_end ∷ []) one_item
      (Event.stream_end ∷ []) built
  where
    built :
        build_node 5 Event.sequence_start
          (Event.scalar_event (codes "a") ∷ Event.sequence_end ∷ Event.stream_end ∷ [])
        ≡ some (one_item, Event.stream_end ∷ [])
    built = unfold build_node seq_append in refl

parse_u64-digits_example : parse_u64 (codes "010") ≡ some 10
parse_u64-digits_example = parse_u64-digits (codes "010") (omega arith) (omega arith) (omega arith)

parse_u64-decimal_example : parse_u64 (decimal 156250000) ≡ some 156250000
parse_u64-decimal_example = parse_u64-decimal 156250000 (omega arith)

parse_u64-wraps_example : parse_u64 (b'\n' ∷ b'-' ∷ b'1' ∷ []) ≡ some 18446744073709551615
parse_u64-wraps_example =
    parse_u64-wraps (b'1' ∷ []) (omega arith) (omega arith) (omega arith) (omega arith)
      (omega arith)

parse_string_ex-IsConfig_example : IsConfig config0 × (false ≡ false → IsSystem config0.system)
parse_string_ex-IsConfig_example =
    parse_string_ex-IsConfig few_addresses few_addresses-IsInet false (document root0) config0
      document0_parses

parse_root-known_example : KnownKeys root_keys root0
parse_root-known_example =
    parse_root-known few_addresses few_addresses-IsInet false root0 config0 root0_parses

parse_string_ex-check_flow_traffic_example :
    All (λ f. (i : ℕ) → check_flow_traffic i f.traffic ≡ none) config0.flows
parse_string_ex-check_flow_traffic_example =
    parse_string_ex-check_flow_traffic few_addresses few_addresses-IsInet false (document root0)
      config0 document0_parses
