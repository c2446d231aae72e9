-- ===== src/Tests/WireTests.antt =====
-- The wire format on concrete packets.
use matf_master_vpn.Prelude.{◌+◌, ◌≡◌, ◌⊎◌, refl, [], ◌∷◌, Error, ok, err, length, arith}
use matf_master_vpn.Prelude.Int.{pos, negsuc}
use matf_master_vpn.Bytes.{Bytes, to_bytes, from_bytes}
use matf_master_vpn.Protocol.{
  Packet, data_message, encode, decode, header_pack, header_unpack, header_size,
}
use matf_master_vpn.Protocol.Wire.{IsEncodable}
use matf_master_vpn.Protocol.Codec.{decode-encode, encode-decode, encode_outcomes}

abbrev greeting : Packet
greeting = record {
  message_type = data_message;
  session_id = pos 258;
  sequence_number = pos 7;
  payload = 9 ∷ 8 ∷ [];
}

abbrev greeting_wire : Bytes
greeting_wire = 1 ∷ 1 ∷ 0 ∷ 0 ∷ 1 ∷ 2 ∷ 0 ∷ 0 ∷ 0 ∷ 0 ∷ 0 ∷ 0 ∷ 0 ∷ 7 ∷ 0 ∷ 2 ∷ 9 ∷ 8 ∷ []

encode-greeting : encode greeting ≡ ok greeting_wire
unfolding encode header_pack to_bytes
encode-greeting = refl

decode-greeting : decode greeting_wire ≡ ok greeting
unfolding decode header_unpack from_bytes
decode-greeting = refl

encode_negative : encode (record greeting { session_id = negsuc 0 }) ≡ err Error.value_error
unfolding encode
encode_negative = refl

decode_short : decode (1 ∷ 1 ∷ []) ≡ err Error.invalid_packet
unfolding decode
decode_short = refl

decode_truncated :
    decode (1 ∷ 1 ∷ 0 ∷ 0 ∷ 1 ∷ 2 ∷ 0 ∷ 0 ∷ 0 ∷ 0 ∷ 0 ∷ 0 ∷ 0 ∷ 7 ∷ 0 ∷ 2 ∷ 9 ∷ [])
    ≡ err Error.invalid_packet
unfolding decode header_unpack from_bytes
decode_truncated = refl

decode-encode_example : decode greeting_wire ≡ ok greeting
decode-encode_example = decode-encode greeting encode-greeting

encode-decode_example : encode greeting ≡ ok greeting_wire
encode-decode_example = encode-decode greeting_wire (omega arith) (omega arith) decode-greeting

encode_outcomes_example :
    ((d : Bytes) × (encode greeting ≡ ok d)
      × IsEncodable greeting
      × (length d ≡ header_size + length greeting.payload))
    ⊎ ((encode greeting ≡ err Error.value_error) × (¬ IsEncodable greeting))
encode_outcomes_example = encode_outcomes greeting
