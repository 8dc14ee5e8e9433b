-- ===== src/Rtmp/Amf0/Returns.antt =====
-- The decoder of src/server/rtmp/amf0.rs returns on every data.
use vcp_media_server.Prelude.{
  ℕ, zero, suc, ◌+◌, ◌<◌, ◌≤◌, ◌≡◌, refl, true, false, List, [], ◌∷◌, ◌++◌, length, length-drop,
  Bool, take, drop, ltb, ◌==◌, if◌then◌else◌, ◌⊎◌, inl, inr, arith,
}
use vcp_media_server.Prelude.Bytes.{starts_with}
use vcp_media_server.Rtmp.Amf0.{
  Utf8, Amf0Value, Properties, Decoded, got, failed, out_of_fuel, map_decoded, decode_value,
  decode_object_inner, decode_string, decode_number, decode_boolean, decode_loop, decode, be16,
  insert_property, object_end, no_properties, string, object, ecma_array,
}

-- A result is there, and with it `k` bytes at least are taken from `n`.
abbrev Takes : {A : Type 0} → ℕ → ℕ → Decoded A → Type 0
Takes k n (got x rest) = length rest + k ≤ n
Takes k n (failed rest) = length rest ≤ n
Takes k n out_of_fuel = ⊥

Takes-map :
    {A B : Type 0} (f : A → B) (k n : ℕ) (r : Decoded A) → Takes k n r → Takes k n (map_decoded f r)
Takes-map f k n (got x rest) h = h
Takes-map f k n (failed rest) h = h
Takes-map f k n out_of_fuel h = elim h [ ]

-- Of a tail, for the whole.
Takes-tail :
    {A : Type 0} (k m n j : ℕ) (r : Decoded A) → Takes k m r → m + j ≤ n → Takes (k + j) n r
Takes-tail k m n j (got x rest) h le = omega arith
Takes-tail k m n j (failed rest) h le = omega arith
Takes-tail k m n j out_of_fuel h le = elim h [ ]

decode_string-Takes :
    (utf8 : Utf8) (bytes : List ℕ) → Takes 0 (length bytes) (decode_string utf8 bytes)
unfolding decode_string
decode_string-Takes utf8 bytes =
    ground (arith, length-drop 2 bytes, length-drop (be16 bytes) (drop 2 bytes))

decode_number-Takes : (bytes : List ℕ) → Takes 0 (length bytes) (decode_number bytes)
unfolding decode_number
decode_number-Takes bytes = ground (arith, length-drop 8 bytes)

decode_boolean-Takes : (bytes : List ℕ) → Takes 0 (length bytes) (decode_boolean bytes)
unfolding decode_boolean
decode_boolean-Takes bytes = ground (arith, length-drop 1 bytes)

choose :
    {A : Type 0} (c : Bool) (x y : Decoded A) (k n : ℕ)
    → (c ≡ true → Takes k n x)
    → (c ≡ false → Takes k n y)
    → Takes k n (if c then x else y)
choose true x y k n p q = p refl
choose false x y k n p q = q refl

-- The value of a property, and what comes behind it.
after_value :
    (n m : ℕ) (r : Decoded Amf0Value) (map : Properties)
    (next : Amf0Value → List ℕ → Decoded Properties)
    → Takes 1 m r
    → m ≤ n
    → ((v : Amf0Value) (rest : List ℕ) → length rest < m → Takes 0 (length rest) (next v rest))
    → Takes 0 n (elim r [
      | got v rest ↦ next v rest
      | failed rest ↦ got map rest
      | out_of_fuel ↦ out_of_fuel
    ])
after_value n m (got v rest) map next t le k =
    Takes-tail 0 (length rest) n 0 (next v rest) (k v rest (omega arith)) (omega arith)
after_value n m (failed rest) map next t le k = omega arith
after_value n m out_of_fuel map next t le k = elim t [ ]

mutual
  unfolding decode_value decode_object_inner

  decode_value-Takes :
      (utf8 : Utf8) (fuel : ℕ) (bytes : List ℕ)
      → length bytes < fuel
      → Takes 1 (length bytes) (decode_value utf8 fuel bytes)
  decode_value-Takes utf8 zero bytes h = absurd (omega arith)
  decode_value-Takes utf8 (suc fuel) [] h = omega arith
  decode_value-Takes utf8 (suc fuel) (marker ∷ bytes) h =
      let n : ℕ = suc (length bytes) in
      let members = decode_object_inner-Takes utf8 fuel bytes no_properties (omega arith) in
      let elements =
        decode_object_inner-Takes utf8 fuel (drop 4 bytes) no_properties
          (omega (arith, length-drop 4 bytes)) in
      choose (marker == 0x00) _ _ 1 n
        (λ _.
          Takes-tail 0 (length bytes) n 1 (decode_number bytes) (decode_number-Takes bytes)
            (omega arith))
        λ _.
          choose (marker == 0x01) _ _ 1 n
            (λ _.
              Takes-tail 0 (length bytes) n 1 (decode_boolean bytes) (decode_boolean-Takes bytes)
                (omega arith))
            λ _.
              choose (marker == 0x02) _ _ 1 n
                (λ _. Takes-map string 1 n (decode_string utf8 bytes) (
                  Takes-tail 0 (length bytes) n 1 (decode_string utf8 bytes)
                    (decode_string-Takes utf8 bytes) (omega arith)))
                λ _.
                  choose (marker == 0x03) _ _ 1 n
                    (λ _. Takes-map object 1 n (decode_object_inner utf8 fuel bytes no_properties) (
                      Takes-tail 0 (length bytes) n 1
                        (decode_object_inner utf8 fuel bytes no_properties) members (omega arith)))
                    λ _.
                      choose (marker == 0x05) _ _ 1 n (λ _. omega arith)
                        λ _.
                          choose (marker == 0x06) _ _ 1 n (λ _. omega arith)
                            λ _.
                              choose (marker == 0x08) _ _ 1 n
                                (λ _.
                                  choose (ltb (length bytes) 4) _ _ 1 n (λ _. omega arith)
                                    (λ _.
                                      Takes-map ecma_array 1 n
                                        (decode_object_inner utf8 fuel (drop 4 bytes) no_properties)
                                        (Takes-tail 0 (length (drop 4 bytes)) n 1
                                          (decode_object_inner utf8 fuel (drop 4 bytes)
                                            no_properties)
                                          elements (omega (arith, length-drop 4 bytes)))))
                                (λ _. omega arith)

  decode_object_inner-Takes :
      (utf8 : Utf8) (fuel : ℕ) (bytes : List ℕ) (map : Properties)
      → length bytes < fuel
      → Takes 0 (length bytes) (decode_object_inner utf8 fuel bytes map)
  decode_object_inner-Takes utf8 zero bytes map h = absurd (omega arith)
  decode_object_inner-Takes utf8 (suc fuel) bytes map h =
      let named = drop 2 bytes in
      let left = drop (be16 bytes) named in
      choose (starts_with bytes object_end) _ _ 0 (length bytes)
        (λ _. omega (arith, length-drop 3 bytes))
        λ _.
          choose (ltb (length bytes) 2) _ _ 0 (length bytes) (λ _. omega arith)
            λ long.
              choose (be16 bytes == 0) _ _ 0 (length bytes)
                (λ _. ground (arith, length-drop 2 bytes, length-drop 1 (drop 2 bytes)))
                λ _.
                  choose (ltb (length named) (be16 bytes)) _ _ 0 (length bytes)
                    (λ _. omega (arith, length-drop 2 bytes))
                    λ _.
                      let shorter : length left + 2 ≤ length bytes =
                        ground (arith, length-drop 2 bytes, length-drop (be16 bytes) named) in
                      after_value (length bytes) (length left) (decode_value utf8 fuel left) map _
                        (decode_value-Takes utf8 fuel left (omega arith)) (omega arith)
                        (λ v rest lt.
                          decode_object_inner-Takes utf8 fuel rest
                            (insert_property map (utf8.from_utf8_lossy (take (be16 bytes) named)) v)
                            (omega arith))

after_values :
    (n m : ℕ) (r : Decoded Amf0Value) (values : List Amf0Value)
    (next : Amf0Value → List ℕ → Decoded (List Amf0Value))
    → Takes 1 m r
    → m ≤ n
    → ((v : Amf0Value) (rest : List ℕ) → length rest < m → Takes 0 (length rest) (next v rest))
    → Takes 0 n (elim r [
      | got v rest ↦ next v rest
      | failed rest ↦ (if length values == 0 then failed rest else got values rest)
      | out_of_fuel ↦ out_of_fuel
    ])
after_values n m (got v rest) values next t le k =
    Takes-tail 0 (length rest) n 0 (next v rest) (k v rest (omega arith)) (omega arith)
after_values n m (failed rest) values next t le k =
    choose (length values == 0) _ _ 0 n (λ _. omega arith) (λ _. omega arith)
after_values n m out_of_fuel values next t le k = elim t [ ]

decode_loop-Takes :
    (utf8 : Utf8) (fuel : ℕ) (bytes : List ℕ) (values : List Amf0Value)
    → length bytes < fuel
    → Takes 0 (length bytes) (decode_loop utf8 fuel bytes values)
unfolding decode_loop
decode_loop-Takes utf8 zero bytes values h = absurd (omega arith)
decode_loop-Takes utf8 (suc fuel) bytes values h =
    choose (length bytes == 0) _ _ 0 (length bytes) (λ _. omega arith)
      λ _.
        choose (starts_with bytes object_end) _ _ 0 (length bytes)
          (λ _. omega (arith, length-drop 3 bytes))
          λ _.
            after_values (length bytes) (length bytes) (decode_value utf8 (suc fuel) bytes) values _
              (decode_value-Takes utf8 (suc fuel) bytes h) (omega arith)
              (λ v rest lt. decode_loop-Takes utf8 fuel rest (values ++ (v ∷ [])) (omega arith))

-- Whatever the data, the decoder returns: with values or with an error, and with no more data left than there were.
pub decode-returns :
    (utf8 : Utf8) (bytes : List ℕ)
    → ((values : List Amf0Value) × (rest : List ℕ) × (decode utf8 bytes ≡ got values rest)
        × (length rest ≤ length bytes))
      ⊎ ((rest : List ℕ) × (decode utf8 bytes ≡ failed rest) × (length rest ≤ length bytes))
unfolding decode
decode-returns utf8 bytes =
    returned (decode_loop utf8 (suc (length bytes)) bytes [])
      (decode_loop-Takes utf8 (suc (length bytes)) bytes [] (omega arith))
  where
    returned :
        (r : Decoded (List Amf0Value))
        → Takes 0 (length bytes) r
        → ((values : List Amf0Value) × (rest : List ℕ) × (r ≡ got values rest)
            × (length rest ≤ length bytes))
          ⊎ ((rest : List ℕ) × (r ≡ failed rest) × (length rest ≤ length bytes))
    returned (got values rest) t = inl (values, rest, refl, omega arith)
    returned (failed rest) t = inr (rest, refl, t)
    returned out_of_fuel t = elim t [ ]
