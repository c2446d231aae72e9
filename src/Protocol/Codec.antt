-- ===== src/Protocol/Codec.antt =====
-- protocol.py: encoding and decoding are inverse, and what each of them refuses.
use matf_master_vpn.Prelude.{
  ℕ, zero, suc, ◌+◌, ◌^◌, ◌≤◌, ◌<◌, ◌≡◌, refl, ap, some, [], ◌∷◌, ◌++◌, length, take, drop, Error,
  ok, err, arith, inl, inr, ◌⊎◌, length-take, length-drop, Result-cases,
}
use matf_master_vpn.Prelude.Int.{pos}
use matf_master_vpn.Bytes.{
  Bytes, AreBytes, to_bytes, from_bytes, to_bytes-from_bytes, from_bytes-lt,
}
use matf_master_vpn.Protocol.{
  Packet, MessageType, message_code, message_type_of, header_pack, header_unpack, encode, decode,
  protocol_version, max_udp_datagram_size, Header, header_size,
}
use matf_master_vpn.Protocol.Wire.{
  wire, IsEncodable, encode-IsEncodable, encode-eq-wire, length-wire, decode-wire,
}

-- Decoding the datagram of any packet that could be encoded gives the packet back.
pub decode-encode : (p : Packet) {d : Bytes} → encode p ≡ ok d → decode d ≡ ok p
decode-encode p h =
    let e = encode-IsEncodable p h in
    cc (
      encode-eq-wire p e,
      decode-wire p.message_type e.session e.sequence p.payload e.session_fits e.sequence_fits
          e.payload_fits,
      e.session_is,
      e.sequence_is,
    )

-- The fields of a header, packed again in front of the payload.
abbrev repack : Header → Bytes → Bytes
repack h payload =
    (to_bytes 1 h.version
      ++ (to_bytes 1 h.raw_type
          ++ (to_bytes 4 h.session_id
              ++ (to_bytes 8 h.sequence_number ++ to_bytes 2 h.payload_size))))
    ++ payload

repack-unpack :
    (d : Bytes)
    → AreBytes d
    → header_size ≤ length d
    → repack (header_unpack d) (drop header_size d) ≡ d
unfolding header_unpack
repack-unpack (v ∷ t ∷ s ∷ s1 ∷ s2 ∷ s3 ∷ q ∷ q1 ∷ q2 ∷ q3 ∷ q4 ∷ q5 ∷ q6 ∷ q7 ∷ n ∷ n1 ∷ r) h e =
    rw (
      to_bytes-from_bytes 1 (v ∷ []) (omega arith) refl,
      to_bytes-from_bytes 1 (t ∷ []) (omega arith) refl,
      to_bytes-from_bytes 4 (s ∷ s1 ∷ s2 ∷ s3 ∷ []) (omega arith) refl,
      to_bytes-from_bytes 8 (q ∷ q1 ∷ q2 ∷ q3 ∷ q4 ∷ q5 ∷ q6 ∷ q7 ∷ []) (omega arith) refl,
      to_bytes-from_bytes 2 (n ∷ n1 ∷ []) (omega arith) refl,
    )
repack-unpack _ h e = absurd (omega arith)

code-message_type_of :
    (raw : ℕ) (t : MessageType) → message_type_of raw ≡ some t → raw ≡ message_code t
code-message_type_of raw t h = ground arith

pub AreBytes-take : (n : ℕ) (xs : Bytes) → AreBytes xs → AreBytes (take n xs)
AreBytes-take zero xs h = tt
AreBytes-take (suc n) [] h = tt
AreBytes-take (suc n) (x ∷ xs) h = (h.0, AreBytes-take n xs h.1)

AreBytes-drop : (n : ℕ) (xs : Bytes) → AreBytes xs → AreBytes (drop n xs)
AreBytes-drop zero xs h = h
AreBytes-drop (suc n) [] h = tt
AreBytes-drop (suc n) (x ∷ xs) h = AreBytes-drop n xs h.1

slice_bound :
    (i n : ℕ) (d : Bytes) → AreBytes d → i + n ≤ length d → from_bytes (take n (drop i d)) < 256 ^ n
slice_bound i n d h fits =
    let measured : length (take n (drop i d)) ≡ n =
      length-take n (drop i d) (omega (arith, length-drop i d)) in
    rw measured at
      (from_bytes-lt (take n (drop i d)) (AreBytes-take n (drop i d) (AreBytes-drop i d h)))

-- What a datagram that decodes looks like.
record IsWire (d : Bytes) (p : Packet) : Type 0 where
  long_enough : header_size ≤ length d
  version : (header_unpack d).version ≡ protocol_version
  size : length d ≡ header_size + (header_unpack d).payload_size
  type_of : message_type_of (header_unpack d).raw_type ≡ some p.message_type
  session : p.session_id ≡ pos (header_unpack d).session_id
  sequence : p.sequence_number ≡ pos (header_unpack d).sequence_number
  payload : p.payload ≡ drop header_size d

decode-IsWire : (d : Bytes) {p : Packet} → decode d ≡ ok p → IsWire d p
unfolding decode
decode-IsWire d h = ground arith

fits_of_decode :
    (d : Bytes) {p : Packet}
    → AreBytes d
    → length d ≤ max_udp_datagram_size
    → IsWire d p
    → IsEncodable p
unfolding header_unpack
fits_of_decode d h fits w = record {
  session = (header_unpack d).session_id;
  sequence = (header_unpack d).sequence_number;
  session_is = w.session;
  sequence_is = w.sequence;
  session_fits = omega (arith, slice_bound 2 4 d h (omega arith));
  sequence_fits = omega (arith, slice_bound 6 8 d h (omega arith));
  payload_fits = omega (arith, length-drop header_size d, ap length w.payload);
}

-- A datagram of bytes that UDP can carry is the encoding of what it decodes to.
pub encode-decode :
    (d : Bytes) {p : Packet}
    → AreBytes d
    → length d ≤ max_udp_datagram_size
    → decode d ≡ ok p
    → encode p ≡ ok d
unfolding fits_of_decode
encode-decode d {p} h fits e =
    let w = decode-IsWire d e in
    let raw = code-message_type_of (header_unpack d).raw_type p.message_type w.type_of in
    let size : (header_unpack d).payload_size ≡ length p.payload =
      omega (arith, length-drop header_size d, ap length w.payload) in
    cc (
      encode-eq-wire p (fits_of_decode d h fits w),
      repack-unpack d h w.long_enough,
      w.version,
      raw,
      size,
      w.payload,
    )

-- Decoding raises nothing but `InvalidPacketError`, whatever the datagram.
pub decode_errors : (d : Bytes) {e : Error} → decode d ≡ err e → e ≡ Error.invalid_packet
unfolding decode
decode_errors d h = ground arith

encode-value_error : (p : Packet) {e : Error} → encode p ≡ err e → e ≡ Error.value_error
unfolding encode header_pack
encode-value_error p h = ground arith

-- Encoding gives a datagram of header and payload when the fields fit, and raises `ValueError`
-- otherwise; there is no third outcome.
pub encode_outcomes :
    (p : Packet)
    → ((d : Bytes) × (encode p ≡ ok d)
        × IsEncodable p
        × (length d ≡ header_size + length p.payload))
      ⊎ ((encode p ≡ err Error.value_error) × (¬ IsEncodable p))
encode_outcomes p = elim (Result-cases (encode p)) [
  | inl (d, h) ↦
      let e = encode-IsEncodable p h in
      inl (
        wire p.message_type e.session e.sequence p.payload,
        encode-eq-wire p e,
        e,
        length-wire p.message_type e.session e.sequence p.payload,
      )
  | inr (x, h) ↦ inr (rw (encode-value_error p h) at h, λ e. cc (encode-eq-wire p e, h))
]

-- A datagram that was encoded fits a UDP datagram.
pub encode-length : (p : Packet) {d : Bytes} → encode p ≡ ok d → length d ≤ max_udp_datagram_size
encode-length p h =
    let e = encode-IsEncodable p h in
    let d_is = encode-eq-wire p e in
    ground (arith, length-wire p.message_type e.session e.sequence p.payload, e.payload_fits)
