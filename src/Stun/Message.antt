-- ===== src/Stun/Message.antt =====
-- nat_discovery.py: `_stun_request`, `_decode_address` and `parse_stun_response` on lists of bytes.
-- An address is its bytes, which `ipaddress` only writes out.
use ge360_bridge.Base.{
  ℕ, zero, suc, ◌+◌, ◌-◌, ◌*◌, ◌/◌, ◌%◌, ◌==◌, not, Bool, true, false, Option, none, some, List, [],
  ◌∷◌, ◌++◌, length, take, drop, ltb, if◌then◌else◌,
}
use ge360_bridge.Base.Text.{text_eq}
use ge360_bridge.Core.Data.{
  Result, ok, err, ◌>>=◌, ◌>>◌, raise_if, stun_too_short, stun_bad_cookie, stun_bad_transaction,
  stun_not_success, stun_bad_length, stun_truncated, stun_bad_address, stun_no_mapped, struct_error,
  out_of_fuel,
}
use ge360_bridge.Stun.Bits.{bit_xor, xor_bytes}

abbrev pub Bytes : Type 0
Bytes = List ℕ

-- `STUN_MAGIC_COOKIE`: its bytes, its two halves and its value.
abbrev pub cookie_bytes : Bytes
cookie_bytes = 33 ∷ 18 ∷ 164 ∷ 66 ∷ []

abbrev pub magic_cookie : ℕ
magic_cookie = 554869826

abbrev pub cookie_high : ℕ
cookie_high = 8466

abbrev pub binding_request : ℕ
binding_request = 1

abbrev pub binding_success : ℕ
binding_success = 257

abbrev pub attr_mapped_address : ℕ
attr_mapped_address = 1

abbrev pub attr_change_request : ℕ
attr_change_request = 3

abbrev pub attr_xor_mapped_address : ℕ
attr_xor_mapped_address = 32

abbrev pub attr_response_origin : ℕ
attr_response_origin = 32811

abbrev pub attr_other_address : ℕ
attr_other_address = 32812

-- `struct.pack` with "!H" and "!I".
abbrev pub pack_16 : ℕ → Bytes
pack_16 n = n / 256 % 256 ∷ n % 256 ∷ []

abbrev pub pack_32 : ℕ → Bytes
pack_32 n = n / 16777216 % 256 ∷ n / 65536 % 256 ∷ n / 256 % 256 ∷ n % 256 ∷ []

-- `struct.unpack` with "!H" and "!I": bytes of another number raise `struct.error`.
abbrev pub unpack_16 : Bytes → Result ℕ
unpack_16 [] = err struct_error
unpack_16 (a ∷ []) = err struct_error
unpack_16 (a ∷ b ∷ []) = ok (a * 256 + b)
unpack_16 (a ∷ b ∷ c ∷ xs) = err struct_error

abbrev pub unpack_32 : Bytes → Result ℕ
unpack_32 [] = err struct_error
unpack_32 (a ∷ []) = err struct_error
unpack_32 (a ∷ b ∷ []) = err struct_error
unpack_32 (a ∷ b ∷ c ∷ []) = err struct_error
unpack_32 (a ∷ b ∷ c ∷ d ∷ []) = ok (((a * 256 + b) * 256 + c) * 256 + d)
unpack_32 (a ∷ b ∷ c ∷ d ∷ e ∷ xs) = err struct_error

-- `data[i:j]`
abbrev pub slice : ℕ → ℕ → Bytes → Bytes
slice i j message = take (j - i) (drop i message)

-- `_stun_request`
unfoldable pub stun_request : Bytes → Option ℕ → Result Bytes
stun_request transaction_id none =
    raise_if (not (length transaction_id == 12)) stun_bad_transaction
    >> ok (pack_16 binding_request ++ pack_16 0 ++ cookie_bytes ++ transaction_id)
stun_request transaction_id (some change) =
    raise_if (not (length transaction_id == 12)) stun_bad_transaction
    >> ok (
        pack_16 binding_request
        ++ pack_16 8
        ++ cookie_bytes
        ++ transaction_id
        ++ pack_16 attr_change_request
        ++ pack_16 4
        ++ pack_32 change)

pub record Address : Type 0 where
  pub packed : Bytes
  pub port : ℕ

-- The byte at `i`, where `struct.unpack` of a shorter text has raised before.
abbrev pub byte_at : ℕ → Bytes → ℕ
byte_at i [] = 0
byte_at zero (x ∷ xs) = x
byte_at (suc i) (x ∷ xs) = byte_at i xs

-- The two families of `_decode_address`.
unfoldable pub decode_packed : Bytes → Bool → Bytes → ℕ → Result Address
unfolding xor_bytes
decode_packed value xor transaction_id port =
    if byte_at 1 value == 1
    then raise_if (not (length value == 8)) stun_bad_address
      >> ok (record {
        packed = if xor then xor_bytes (slice 4 8 value) cookie_bytes else slice 4 8 value;
        port = port;
      })
    else if byte_at 1 value == 2
    then raise_if (not (length value == 20)) stun_bad_address
      >> ok (record {
        packed =
            if xor
            then xor_bytes (slice 4 20 value) (cookie_bytes ++ transaction_id)
            else slice 4 20 value;
        port = port;
      })
    else err stun_bad_address

-- `_decode_address`
unfoldable pub decode_address : Bytes → Bool → Bytes → Result Address
unfolding decode_packed bit_xor
decode_address value xor transaction_id =
    raise_if (ltb (length value) 4) stun_bad_address
    >> (unpack_16 (slice 2 4 value) >>= λ port.
        decode_packed value xor transaction_id (if xor then bit_xor 16 port cookie_high else port))

abbrev pub Attributes : Type 0
Attributes = List (ℕ × Bytes)

-- The loop over the attributes; `fuel` bounds its turns.
unfoldable pub read_attributes : ℕ → Bytes → ℕ → ℕ → Result Attributes
read_attributes zero message end offset = if ltb offset end then err out_of_fuel else ok []
read_attributes (suc fuel) message end offset =
    if not (ltb offset end)
    then ok []
    else raise_if (ltb end (offset + 4)) stun_truncated
      >> (unpack_16 (slice offset (offset + 2) message) >>= λ attr_type.
          unpack_16 (slice (offset + 2) (offset + 4) message) >>= λ attr_len.
          raise_if (ltb end (offset + 4 + attr_len)) stun_truncated
          >> (read_attributes fuel message end (offset + 4 + (attr_len + 3) / 4 * 4) >>= λ rest.
              ok ((attr_type, slice (offset + 4) (offset + 4 + attr_len) message) ∷ rest)))

-- `attrs[attr_type][0]`
unfoldable pub first_of : ℕ → Attributes → Option Bytes
first_of attr_type [] = none
first_of attr_type ((t, v) ∷ attrs) = if t == attr_type then some v else first_of attr_type attrs

unfoldable pub find_mapped : Attributes → Bytes → Result Address
unfolding first_of decode_address
find_mapped attrs transaction_id = elim (first_of attr_xor_mapped_address attrs) [
  | some v ↦ decode_address v true transaction_id
  | none ↦ elim (first_of attr_mapped_address attrs) [
    | some v ↦ decode_address v false transaction_id
    | none ↦ err stun_no_mapped
  ]
]

-- `addr` of `parse_stun_response`.
unfoldable pub find_address : ℕ → Attributes → Bytes → Result (Option Address)
unfolding first_of decode_address
find_address attr_type attrs transaction_id = elim (first_of attr_type attrs) [
  | none ↦ ok none
  | some v ↦ decode_address v false transaction_id >>= λ a. ok (some a)
]

pub record StunAnswer : Type 0 where
  pub mapped : Address
  pub response_origin : Option Address
  pub other_address : Option Address

-- The addresses of the answer.
unfoldable pub read_answer : Attributes → Bytes → Result StunAnswer
unfolding find_mapped find_address
read_answer attrs transaction_id = find_mapped attrs transaction_id >>= λ mapped.
    find_address attr_response_origin attrs transaction_id >>= λ origin.
    find_address attr_other_address attrs transaction_id >>= λ other.
    ok (record { mapped = mapped; response_origin = origin; other_address = other })

-- `parse_stun_response`; the length of the answer is enough fuel, a turn takes four bytes.
unfoldable pub parse_stun_response : Bytes → Bytes → Result StunAnswer
unfolding read_attributes read_answer text_eq
parse_stun_response message expected =
    raise_if (ltb (length message) 20) stun_too_short
    >> (unpack_16 (slice 0 2 message) >>= λ msg_type. unpack_16 (slice 2 4 message) >>= λ declared.
        unpack_32 (slice 4 8 message) >>= λ cookie.
        raise_if (not (cookie == magic_cookie)) stun_bad_cookie
        >> (raise_if (not (text_eq (slice 8 20 message) expected)) stun_bad_transaction
            >> (raise_if (not (msg_type == binding_success)) stun_not_success
                >> (raise_if (not (declared + 20 == length message)) stun_bad_length
                    >> (read_attributes (length message) message (20 + declared) 20 >>= λ attrs.
                        read_answer attrs (slice 8 20 message))))))
