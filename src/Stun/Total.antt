-- ===== src/Stun/Total.antt =====
-- nat_discovery.py: the reading of an answer ends, and `struct.unpack` never raises.
use ge360_bridge.Base.{
  ℕ, zero, suc, ◌+◌, ◌-◌, ◌*◌, ◌/◌, ◌≤◌, ◌≡◌, refl, ◌==◌, not, Bool, true, false, [], ◌∷◌, length,
  take, drop, ltb, arith, both_branches, both_options,
}
use ge360_bridge.Base.Text.{text_eq}
use ge360_bridge.Core.Data.{
  Error, Result, ok, err, ◌>>=◌, ◌>>◌, raise_if, stun_too_short, stun_bad_cookie,
  stun_bad_transaction, stun_not_success, stun_bad_length, stun_truncated, stun_bad_address,
  struct_error, out_of_fuel,
}
use ge360_bridge.Stun.Message.{
  Bytes, Attributes, unpack_16, unpack_32, slice, decode_packed, decode_address, read_attributes,
  first_of, byte_at, attr_xor_mapped_address, attr_mapped_address, attr_response_origin,
  attr_other_address, magic_cookie, binding_success, find_mapped, find_address, read_answer,
  parse_stun_response,
}

-- The error is neither that of `struct` nor that of the fuel.
abbrev pub is_bridge_error : Error → Bool
is_bridge_error e = elim e [ struct_error ↦ false | out_of_fuel ↦ false | _ ↦ true ]

-- The result is a value or a `BridgeError`.
abbrev pub IsHandled {ℓ} : {A : Type ℓ} → Result A → Type 0
IsHandled (ok a) = Unit
IsHandled (err e) = is_bridge_error e ≡ true

>>=-IsHandled {ℓ κ} :
    {A : Type ℓ} {B : Type κ} (m : Result A) (k : A → Result B)
    → IsHandled m
    → ((x : A) → IsHandled (k x))
    → IsHandled (m >>= k)
>>=-IsHandled (ok x) k h f = f x
>>=-IsHandled (err e) k h f = h

raise_if-IsHandled {ℓ} :
    {A : Type ℓ} (b : Bool) (e : Error) (m : Result A)
    → is_bridge_error e ≡ true
    → (b ≡ false → IsHandled m)
    → IsHandled (raise_if b e >> m)
raise_if-IsHandled true e m h f = h
raise_if-IsHandled false e m h f = f refl

length-drop : (n : ℕ) (xs : Bytes) → length (drop n xs) ≡ length xs - n
length-drop zero xs = omega arith
length-drop (suc n) [] = omega arith
length-drop (suc n) (x ∷ xs) = omega (arith, length-drop n xs)

length-take_all : (n : ℕ) (xs : Bytes) → n ≤ length xs → length (take n xs) ≡ n
length-take_all zero xs h = refl
length-take_all (suc n) [] h = omega arith
length-take_all (suc n) (x ∷ xs) h = omega (arith, length-take_all n xs (omega arith))

pub length-slice :
    (i j : ℕ) (message : Bytes) → i ≤ j → j ≤ length message → length (slice i j message) ≡ j - i
length-slice i j message h t =
    length-take_all (j - i) (drop i message) (omega (arith, length-drop i message))

unpack_16-IsHandled : (xs : Bytes) → length xs ≡ 2 → IsHandled (unpack_16 xs)
unpack_16-IsHandled [] h = absurd (omega arith)
unpack_16-IsHandled (a ∷ []) h = absurd (omega arith)
unpack_16-IsHandled (a ∷ b ∷ []) h = tt
unpack_16-IsHandled (a ∷ b ∷ c ∷ xs) h = absurd (omega arith)

unpack_32-IsHandled : (xs : Bytes) → length xs ≡ 4 → IsHandled (unpack_32 xs)
unpack_32-IsHandled [] h = absurd (omega arith)
unpack_32-IsHandled (a ∷ []) h = absurd (omega arith)
unpack_32-IsHandled (a ∷ b ∷ []) h = absurd (omega arith)
unpack_32-IsHandled (a ∷ b ∷ c ∷ []) h = absurd (omega arith)
unpack_32-IsHandled (a ∷ b ∷ c ∷ d ∷ []) h = tt
unpack_32-IsHandled (a ∷ b ∷ c ∷ d ∷ e ∷ xs) h = absurd (omega arith)

-- Two bytes of the message that are there are a number.
slice-IsHandled :
    (i j : ℕ) (message : Bytes)
    → j ≡ i + 2
    → j ≤ length message
    → IsHandled (unpack_16 (slice i j message))
slice-IsHandled i j message e h =
    unpack_16-IsHandled (slice i j message)
      (omega (arith, length-slice i j message (omega arith) h))

read_attributes-IsHandled :
    (fuel : ℕ) (message : Bytes) (end offset : ℕ)
    → end ≤ length message
    → end ≤ offset + fuel
    → IsHandled (read_attributes fuel message end offset)
unfolding read_attributes
read_attributes-IsHandled zero message end offset h t =
    both_branches IsHandled (ltb offset end) (λ e. absurd (ground arith)) (λ e. tt)
read_attributes-IsHandled (suc fuel) message end offset h t =
    both_branches IsHandled (not (ltb offset end)) (λ e. tt)
      (λ e. raise_if-IsHandled (ltb end (offset + 4)) stun_truncated _ refl (λ s.
        >>=-IsHandled (unpack_16 (slice offset (offset + 2) message)) _
          (slice-IsHandled offset (offset + 2) message refl (ground arith))
          (λ attr_type.
            >>=-IsHandled (unpack_16 (slice (offset + 2) (offset + 4) message)) _
              (slice-IsHandled (offset + 2) (offset + 4) message (omega arith) (ground arith))
              (λ attr_len.
                raise_if-IsHandled (ltb end (offset + 4 + attr_len)) stun_truncated _ refl (λ u.
                  >>=-IsHandled
                    (read_attributes fuel message end (offset + 4 + (attr_len + 3) / 4 * 4)) _
                    (read_attributes-IsHandled fuel message end
                      (offset + 4 + (attr_len + 3) / 4 * 4) h (omega arith))
                    (λ rest. tt))))))

decode_packed-IsHandled :
    (value : Bytes) (xor : Bool) (transaction_id : Bytes) (port : ℕ)
    → IsHandled (decode_packed value xor transaction_id port)
unfolding decode_packed
decode_packed-IsHandled value xor transaction_id port =
    both_branches IsHandled (byte_at 1 value == 1)
      (λ e. raise_if-IsHandled (not (length value == 8)) stun_bad_address _ refl (λ t. tt))
      (λ e.
        both_branches IsHandled (byte_at 1 value == 2)
          (λ t. raise_if-IsHandled (not (length value == 20)) stun_bad_address _ refl (λ u. tt))
          (λ t. refl))

decode_address-IsHandled :
    (value : Bytes) (xor : Bool) (transaction_id : Bytes)
    → IsHandled (decode_address value xor transaction_id)
unfolding decode_address
decode_address-IsHandled value xor transaction_id =
    raise_if-IsHandled (ltb (length value) 4) stun_bad_address _ refl (λ e.
      >>=-IsHandled (unpack_16 (slice 2 4 value)) _
        (slice-IsHandled 2 4 value (omega arith) (ground arith))
        (λ port. decode_packed-IsHandled value xor transaction_id _))

find_mapped-IsHandled :
    (attrs : Attributes) (transaction_id : Bytes) → IsHandled (find_mapped attrs transaction_id)
unfolding find_mapped
find_mapped-IsHandled attrs transaction_id =
    both_options IsHandled (first_of attr_xor_mapped_address attrs)
      (λ e.
        both_options IsHandled (first_of attr_mapped_address attrs) (λ t. refl)
          (λ v t. decode_address-IsHandled v false transaction_id))
      (λ v e. decode_address-IsHandled v true transaction_id)

find_address-IsHandled :
    (attr_type : ℕ) (attrs : Attributes) (transaction_id : Bytes)
    → IsHandled (find_address attr_type attrs transaction_id)
unfolding find_address
find_address-IsHandled attr_type attrs transaction_id =
    both_options IsHandled (first_of attr_type attrs) (λ e. tt)
      (λ v e.
        >>=-IsHandled (decode_address v false transaction_id) _
          (decode_address-IsHandled v false transaction_id) (λ a. tt))

read_answer-IsHandled :
    (attrs : Attributes) (transaction_id : Bytes) → IsHandled (read_answer attrs transaction_id)
unfolding read_answer
read_answer-IsHandled attrs transaction_id =
    >>=-IsHandled (find_mapped attrs transaction_id) _ (find_mapped-IsHandled attrs transaction_id)
      (λ mapped.
        >>=-IsHandled (find_address attr_response_origin attrs transaction_id) _
          (find_address-IsHandled attr_response_origin attrs transaction_id)
          (λ origin.
            >>=-IsHandled (find_address attr_other_address attrs transaction_id) _
              (find_address-IsHandled attr_other_address attrs transaction_id) (λ other. tt)))

-- Any bytes are answered by a value or by a `BridgeError`: the loop over the attributes ends within
-- as many turns as there are bytes, and `struct.unpack` is never given too few or too many of them.
pub parse_stun_response-IsHandled :
    (message expected : Bytes) → IsHandled (parse_stun_response message expected)
unfolding parse_stun_response
parse_stun_response-IsHandled message expected =
    raise_if-IsHandled (ltb (length message) 20) stun_too_short _ refl (λ e.
      >>=-IsHandled (unpack_16 (slice 0 2 message)) _
        (slice-IsHandled 0 2 message (omega arith) (ground arith))
        (λ msg_type.
          >>=-IsHandled (unpack_16 (slice 2 4 message)) _
            (slice-IsHandled 2 4 message (omega arith) (ground arith))
            (λ declared.
              >>=-IsHandled (unpack_32 (slice 4 8 message)) _
                (unpack_32-IsHandled (slice 4 8 message)
                  (omega (arith, length-slice 4 8 message (omega arith) (ground arith))))
                (λ cookie.
                  raise_if-IsHandled (not (cookie == magic_cookie)) stun_bad_cookie _ refl (λ t.
                    raise_if-IsHandled (not (text_eq (slice 8 20 message) expected))
                      stun_bad_transaction _ refl
                      (λ u.
                        raise_if-IsHandled (not (msg_type == binding_success)) stun_not_success _
                          refl
                          (λ v.
                            raise_if-IsHandled (not (declared + 20 == length message))
                              stun_bad_length _ refl
                              (λ w.
                                >>=-IsHandled
                                  (read_attributes (length message) message (20 + declared) 20) _
                                  (read_attributes-IsHandled (length message) message
                                    (20 + declared) 20 (ground arith) (ground arith))
                                  (λ attrs.
                                    read_answer-IsHandled attrs (slice 8 20 message))))))))))
