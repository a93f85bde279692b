-- ===== src/Stun/Answer.antt =====
-- nat_discovery.py: the answer of a server is read back.
use ge360_bridge.Base.{
  ℕ, ◌+◌, ◌*◌, ◌/◌, ◌%◌, ◌<◌, ◌≡◌, ◌∙◌, refl, ap, true, none, [], ◌∷◌, ◌++◌, arith,
}
use ge360_bridge.Base.Text.{text_eq_refl}
use ge360_bridge.Core.Data.{ok}
use ge360_bridge.Stun.Bits.{bit_xor, bit_xor_twice, bit_xor_small, xor_bytes}
use ge360_bridge.Stun.Message.{
  Bytes, Address, pack_16, cookie_bytes, cookie_high, binding_success, attr_xor_mapped_address,
  decode_packed, decode_address, read_attributes, first_of, find_mapped, find_address, read_answer,
  parse_stun_response,
}

-- The value of XOR-MAPPED-ADDRESS for an IPv4 address, of RFC 5389, section 15.2.
abbrev pub xor_mapped : (a b c d port : ℕ) → Bytes
xor_mapped a b c d port =
    0 ∷ 1 ∷ pack_16 (bit_xor 16 port cookie_high)
    ++ (bit_xor 8 a 33 ∷ bit_xor 8 b 18 ∷ bit_xor 8 c 164 ∷ bit_xor 8 d 66 ∷ [])

-- A success answer with this attribute alone, whose transaction id is the twelve bytes.
abbrev pub answer_with : Bytes → Bytes → Bytes
answer_with transaction_id value =
    pack_16 binding_success
    ++ pack_16 12
    ++ cookie_bytes
    ++ transaction_id
    ++ pack_16 attr_xor_mapped_address
    ++ pack_16 8
    ++ value

xor_bytes_twice :
    (a b c d : ℕ)
    → a < 256
    → b < 256
    → c < 256
    → d < 256
    → xor_bytes
        (bit_xor 8 a 33 ∷ bit_xor 8 b 18 ∷ bit_xor 8 c 164 ∷ bit_xor 8 d 66 ∷ [])
        cookie_bytes
      ≡ a ∷ b ∷ c ∷ d ∷ []
unfolding xor_bytes
xor_bytes_twice a b c d ha hb hc hd =
    rw
      (
        bit_xor_twice 8 a 33 ha,
        bit_xor_twice 8 b 18 hb,
        bit_xor_twice 8 c 164 hc,
        bit_xor_twice 8 d 66 hd,
      )
      refl

pack_16_value : (n : ℕ) → n < 65536 → n / 256 % 256 * 256 + n % 256 ≡ n
pack_16_value n h = omega arith

decode_value :
    (high low w x y z : ℕ) (transaction_id : Bytes)
    → decode_address (0 ∷ 1 ∷ high ∷ low ∷ w ∷ x ∷ y ∷ z ∷ []) true transaction_id
      ≡ ok (record {
        packed = xor_bytes (w ∷ x ∷ y ∷ z ∷ []) cookie_bytes;
        port = bit_xor 16 (high * 256 + low) cookie_high;
      })
unfolding decode_address decode_packed
decode_value high low w x y z transaction_id = refl

decode_port :
    (port : ℕ)
    → port < 65536
    → bit_xor 16
        (bit_xor 16 port cookie_high / 256 % 256 * 256 + bit_xor 16 port cookie_high % 256)
        cookie_high
      ≡ port
decode_port port h =
    ap (λ n. bit_xor 16 n cookie_high)
      (pack_16_value (bit_xor 16 port cookie_high) (bit_xor_small 16 port cookie_high))
    ∙ bit_xor_twice 16 port cookie_high h

decode_xor_mapped :
    (a b c d port : ℕ) (transaction_id : Bytes)
    → a < 256
    → b < 256
    → c < 256
    → d < 256
    → port < 65536
    → decode_address (xor_mapped a b c d port) true transaction_id
      ≡ ok (record { packed = a ∷ b ∷ c ∷ d ∷ []; port = port })
decode_xor_mapped a b c d port transaction_id ha hb hc hd h =
    decode_value _ _ _ _ _ _ transaction_id ∙ (λ i.
      ok (record { packed = xor_bytes_twice a b c d ha hb hc hd i; port = decode_port port h i }))

parse_answer :
    (t0 t1 t2 t3 t4 t5 t6 t7 t8 t9 t10 t11 : ℕ) (v0 v1 v2 v3 v4 v5 v6 v7 : ℕ)
    → parse_stun_response
        (answer_with
          (t0 ∷ t1 ∷ t2 ∷ t3 ∷ t4 ∷ t5 ∷ t6 ∷ t7 ∷ t8 ∷ t9 ∷ t10 ∷ t11 ∷ [])
          (v0 ∷ v1 ∷ v2 ∷ v3 ∷ v4 ∷ v5 ∷ v6 ∷ v7 ∷ []))
        (t0 ∷ t1 ∷ t2 ∷ t3 ∷ t4 ∷ t5 ∷ t6 ∷ t7 ∷ t8 ∷ t9 ∷ t10 ∷ t11 ∷ [])
      ≡ read_answer
          ((32, v0 ∷ v1 ∷ v2 ∷ v3 ∷ v4 ∷ v5 ∷ v6 ∷ v7 ∷ []) ∷ [])
          (t0 ∷ t1 ∷ t2 ∷ t3 ∷ t4 ∷ t5 ∷ t6 ∷ t7 ∷ t8 ∷ t9 ∷ t10 ∷ t11 ∷ [])
unfolding parse_stun_response read_attributes
parse_answer t0 t1 t2 t3 t4 t5 t6 t7 t8 t9 t10 t11 v0 v1 v2 v3 v4 v5 v6 v7 =
    rw (text_eq_refl (t0 ∷ t1 ∷ t2 ∷ t3 ∷ t4 ∷ t5 ∷ t6 ∷ t7 ∷ t8 ∷ t9 ∷ t10 ∷ t11 ∷ [])) refl

read_mapped :
    (value transaction_id : Bytes) (a : Address)
    → decode_address value true transaction_id ≡ ok a
    → read_answer ((attr_xor_mapped_address, value) ∷ []) transaction_id
      ≡ ok (record { mapped = a; response_origin = none; other_address = none })
unfolding read_answer find_mapped find_address first_of
read_mapped value transaction_id a e = rw e refl

-- A success answer with the XOR-MAPPED-ADDRESS of an IPv4 address and a port, as RFC 5389 writes
-- it, is read as that address and port, if its transaction id is the one that was sent.
pub parse_stun_response_answer :
    (t0 t1 t2 t3 t4 t5 t6 t7 t8 t9 t10 t11 : ℕ) (a b c d port : ℕ)
    → a < 256
    → b < 256
    → c < 256
    → d < 256
    → port < 65536
    → parse_stun_response
        (answer_with
          (t0 ∷ t1 ∷ t2 ∷ t3 ∷ t4 ∷ t5 ∷ t6 ∷ t7 ∷ t8 ∷ t9 ∷ t10 ∷ t11 ∷ [])
          (xor_mapped a b c d port))
        (t0 ∷ t1 ∷ t2 ∷ t3 ∷ t4 ∷ t5 ∷ t6 ∷ t7 ∷ t8 ∷ t9 ∷ t10 ∷ t11 ∷ [])
      ≡ ok (record {
        mapped = record { packed = a ∷ b ∷ c ∷ d ∷ []; port = port };
        response_origin = none;
        other_address = none;
      })
parse_stun_response_answer t0 t1 t2 t3 t4 t5 t6 t7 t8 t9 t10 t11 a b c d port ha hb hc hd h =
    let sent = t0 ∷ t1 ∷ t2 ∷ t3 ∷ t4 ∷ t5 ∷ t6 ∷ t7 ∷ t8 ∷ t9 ∷ t10 ∷ t11 ∷ [] in
    parse_answer t0 t1 t2 t3 t4 t5 t6 t7 t8 t9 t10 t11 _ _ _ _ _ _ _ _
    ∙ read_mapped (xor_mapped a b c d port) sent _
        (decode_xor_mapped a b c d port sent ha hb hc hd h)
