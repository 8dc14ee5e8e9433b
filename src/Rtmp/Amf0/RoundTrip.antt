-- ===== src/Rtmp/Amf0/RoundTrip.antt =====
-- What the encoder of src/server/rtmp/amf0.rs writes is read again.
use vcp_media_server.Rtmp.Amf0.Keys.{
  Apart, AllApart, Disjoint, insert_all, joined, insert_all-joined,
}
use vcp_media_server.Prelude.{
  ℕ, zero, suc, ◌+◌, ◌/◌, ◌%◌, ◌^◌, ◌<◌, ◌≤◌, ◌≡◌, refl, sym, ap, ◌∙◌, String, Bool, true, false,
  List, [], ◌∷◌, ◌++◌, length, map, ltb, ◌==◌, if◌then◌else◌, arith, length-append, append_assoc,
  append-nil, take-append_length, drop-append_length, All,
}
use vcp_media_server.Prelude.Bytes.{starts_with}
use vcp_media_server.Rtmp.Chunk.{put32}
use vcp_media_server.Rtmp.Amf0.{
  Utf8, Amf0Value, Properties, number, boolean, string, object, null, undefined, ecma_array,
  no_properties, property, got, decode_value, decode_object_inner, decode_string, decode_number,
  decode_boolean, decode_loop, decode, be16, be64, put16, put64, insert_property, object_end,
  encode_text, encode_value, encode_object_properties, encode, map_decoded, count,
}

-- A text whose length fits into 16 bits, and which the standard library reads back.
abbrev pub FitsText : Utf8 → String → Type 0
FitsText utf8 s = (length (utf8.as_bytes s) < 2 ^ 16) × (utf8.from_utf8_lossy (utf8.as_bytes s) ≡ s)

-- The limits of the format: texts of less than 2 ^ 16 bytes, numbers of 64 bits, and keys that are not empty
-- and differ, as those of a `HashMap` do.
unfoldable mutual
  pub Fits : Utf8 → Amf0Value → Type 0
  Fits utf8 (number n) = n < 2 ^ 64
  Fits utf8 (boolean b) = Unit
  Fits utf8 (string s) = FitsText utf8 s
  Fits utf8 (object ps) = FitsAll utf8 ps
  Fits utf8 null = Unit
  Fits utf8 undefined = Unit
  Fits utf8 (ecma_array ps) = FitsAll utf8 ps

  pub FitsAll : Utf8 → Properties → Type 0
  FitsAll utf8 no_properties = Unit
  FitsAll utf8 (property k v rest) =
      (0 < length (utf8.as_bytes k))
      × FitsText utf8 k
      × Apart k rest
      × Fits utf8 v
      × FitsAll utf8 rest

-- The value with null for undefined.
unfoldable mutual
  pub settled : Amf0Value → Amf0Value
  settled (number n) = number n
  settled (boolean b) = boolean b
  settled (string s) = string s
  settled (object ps) = object (settled_all ps)
  settled null = null
  settled undefined = null
  settled (ecma_array ps) = ecma_array (settled_all ps)

  pub settled_all : Properties → Properties
  settled_all no_properties = no_properties
  settled_all (property k v rest) = property k (settled v) (settled_all rest)

decode_number-put64 :
    (n : ℕ) (rest : List ℕ) → n < 2 ^ 64 → decode_number (put64 n ++ rest) ≡ got (number n) rest
unfolding decode_number
decode_number-put64 n rest h =
    let long : ltb (length (put64 n ++ rest)) 8 ≡ false = ground arith in
    let same : be64 (put64 n ++ rest) ≡ n = omega arith in rw (long, same) refl

decode_boolean-flag :
    (b : Bool) (rest : List ℕ) → decode_boolean ((if b then 1 else 0) ∷ rest) ≡ got (boolean b) rest
unfolding decode_boolean
decode_boolean-flag true rest = ground arith
decode_boolean-flag false rest = ground arith

be16-put16 : (n : ℕ) (rest : List ℕ) → n < 2 ^ 16 → be16 (put16 (n % 2 ^ 16) ++ rest) ≡ n
be16-put16 n rest h = omega arith

decode_string-encode_text :
    (utf8 : Utf8) (s : String) (rest : List ℕ)
    → FitsText utf8 s
    → decode_string utf8 (encode_text utf8 s ++ rest) ≡ got s rest
unfolding decode_string encode_text
decode_string-encode_text utf8 s rest (h, back) =
    let text = utf8.as_bytes s in
    let all = put16 (length text % 2 ^ 16) ++ (text ++ rest) in
    let long : ltb (length all) 2 ≡ false = ground arith in
    let len : be16 all ≡ length text = be16-put16 (length text) (text ++ rest) h in
    let room : ltb (length (text ++ rest)) (length text) ≡ false =
      ground (arith, length-append text rest) in
    rw (long, len, room, take-append_length text rest, drop-append_length text rest, back) refl

-- A property is read, then the others.
decode_object_inner-property :
    (utf8 : Utf8) (fuel : ℕ) (k : String) (left : List ℕ) (acc : Properties) (v : Amf0Value)
    (rest : List ℕ)
    → 0 < length (utf8.as_bytes k)
    → FitsText utf8 k
    → decode_value utf8 fuel left ≡ got v rest
    → decode_object_inner utf8 (suc fuel) (encode_text utf8 k ++ left) acc
      ≡ decode_object_inner utf8 fuel rest (insert_property acc k v)
unfolding decode_object_inner encode_text starts_with
decode_object_inner-property utf8 fuel k left acc v rest pos (h, back) e =
    let text = utf8.as_bytes k in
    let all = put16 (length text % 2 ^ 16) ++ (text ++ left) in
    let open_still : starts_with all object_end ≡ false = ground arith in
    let long : ltb (length all) 2 ≡ false = ground arith in
    let len : be16 all ≡ length text = be16-put16 (length text) (text ++ left) h in
    let named : (length text == 0) ≡ false = ground arith in
    let room : ltb (length (text ++ left)) (length text) ≡ false =
      ground (arith, length-append text left) in
    rw (open_still, long, len, named, room, drop-append_length text left, e)
      (rw (len, take-append_length text left, back) refl)

Apart-settled_all : (k : String) (ps : Properties) → Apart k ps → Apart k (settled_all ps)
unfolding settled_all
Apart-settled_all k no_properties a = tt
Apart-settled_all k (property j v rest) (n, a) = (n, Apart-settled_all k rest a)

AllApart-settled_all : (utf8 : Utf8) (ps : Properties) → FitsAll utf8 ps → AllApart (settled_all ps)
unfolding settled_all AllApart FitsAll
AllApart-settled_all utf8 no_properties h = tt
AllApart-settled_all utf8 (property k v rest) (pos, fits, a, hv, h) =
    (Apart-settled_all k rest a, AllApart-settled_all utf8 rest h)

Disjoint-none : (ps : Properties) → Disjoint no_properties ps
unfolding Disjoint
Disjoint-none no_properties = tt
Disjoint-none (property k v rest) = (tt, Disjoint-none rest)

built :
    (utf8 : Utf8) (ps : Properties)
    → FitsAll utf8 ps
    → insert_all no_properties (settled_all ps) ≡ settled_all ps
unfolding joined
built utf8 ps h =
    insert_all-joined no_properties (settled_all ps) (Disjoint-none (settled_all ps))
      (AllApart-settled_all utf8 ps h)

length-encode_text :
    (utf8 : Utf8) (s : String) → length (encode_text utf8 s) ≡ 2 + length (utf8.as_bytes s)
unfolding encode_text
length-encode_text utf8 s = omega arith

decode_object_inner-object_end :
    (utf8 : Utf8) (fuel : ℕ) (rest : List ℕ) (acc : Properties)
    → decode_object_inner utf8 (suc fuel) (object_end ++ rest) acc ≡ got acc rest
unfolding decode_object_inner starts_with
decode_object_inner-object_end utf8 fuel rest acc = refl

regroup : (ws xs ys zs : List ℕ) → (ws ++ (xs ++ ys)) ++ zs ≡ ws ++ (xs ++ (ys ++ zs))
regroup ws xs ys zs = append_assoc ws (xs ++ ys) zs ∙ ap (λ us. ws ++ us) (append_assoc xs ys zs)

mutual
  unfolding decode_value encode_value settled Fits FitsAll insert_all

  decode_value-encode_value :
      (utf8 : Utf8) (fuel : ℕ) (v : Amf0Value) (rest : List ℕ)
      → Fits utf8 v
      → length (encode_value utf8 v) ≤ fuel
      → decode_value utf8 fuel (encode_value utf8 v ++ rest) ≡ got (settled v) rest
  decode_value-encode_value utf8 (suc fuel) (number n) rest h le = decode_number-put64 n rest h
  decode_value-encode_value utf8 (suc fuel) (boolean b) rest h le = decode_boolean-flag b rest
  decode_value-encode_value utf8 (suc fuel) (string s) rest h le =
      ap (map_decoded string) (decode_string-encode_text utf8 s rest h)
  decode_value-encode_value utf8 (suc fuel) (object ps) rest h le = ap (map_decoded object) (
      ap (λ bytes. decode_object_inner utf8 fuel bytes no_properties)
        (append_assoc (encode_object_properties utf8 ps) object_end rest)
      ∙ decode_object_inner-encode utf8 fuel ps rest no_properties h
          (omega (arith, length-append (encode_object_properties utf8 ps) object_end))
      ∙ ap (λ ps. got ps rest) (built utf8 ps h))
  decode_value-encode_value utf8 (suc fuel) null rest h le = refl
  decode_value-encode_value utf8 (suc fuel) undefined rest h le = refl
  decode_value-encode_value utf8 (suc fuel) (ecma_array ps) rest h le =
      let long : ltb
            (length (
              put32 (count ps % 2 ^ 32)
              ++ ((encode_object_properties utf8 ps ++ object_end) ++ rest)))
            4
          ≡ false =
        ground arith in
      rw long (
        ap (map_decoded ecma_array) (
          ap (λ bytes. decode_object_inner utf8 fuel bytes no_properties)
            (append_assoc (encode_object_properties utf8 ps) object_end rest)
          ∙ decode_object_inner-encode utf8 fuel ps rest no_properties h
              (omega (arith, length-append (encode_object_properties utf8 ps) object_end))
          ∙ ap (λ ps. got ps rest) (built utf8 ps h)))
  decode_value-encode_value utf8 zero (number n) rest h le = absurd (omega arith)
  decode_value-encode_value utf8 zero (boolean b) rest h le = absurd (omega arith)
  decode_value-encode_value utf8 zero (string s) rest h le = absurd (omega arith)
  decode_value-encode_value utf8 zero (object ps) rest h le = absurd (omega arith)
  decode_value-encode_value utf8 zero null rest h le = absurd (omega arith)
  decode_value-encode_value utf8 zero undefined rest h le = absurd (omega arith)
  decode_value-encode_value utf8 zero (ecma_array ps) rest h le = absurd (omega arith)

  decode_object_inner-encode :
      (utf8 : Utf8) (fuel : ℕ) (ps : Properties) (rest : List ℕ) (acc : Properties)
      → FitsAll utf8 ps
      → length (encode_object_properties utf8 ps) + 3 ≤ fuel
      → decode_object_inner utf8 fuel (encode_object_properties utf8 ps ++ (object_end ++ rest)) acc
        ≡ got (insert_all acc (settled_all ps)) rest
  decode_object_inner-encode utf8 zero ps rest acc h le = absurd (omega arith)
  decode_object_inner-encode utf8 (suc fuel) no_properties rest acc h le =
      decode_object_inner-object_end utf8 fuel rest acc
  decode_object_inner-encode utf8 (suc fuel) (property k v more) rest acc (pos, fits, a, hv, h) le =
      let text = encode_text utf8 k in
      let value = encode_value utf8 v in
      let others = encode_object_properties utf8 more in
      let room : 2 + (length value + length others) + 3 ≤ suc fuel = omega (
        arith,
        length-append text (value ++ others),
        length-append value others,
        length-encode_text utf8 k,
      ) in
      ap (λ bytes. decode_object_inner utf8 (suc fuel) bytes acc)
        (regroup text value others (object_end ++ rest))
      ∙ decode_object_inner-property utf8 fuel k (value ++ (others ++ (object_end ++ rest))) acc
          (settled v) (others ++ (object_end ++ rest)) pos fits
          (decode_value-encode_value utf8 fuel v (others ++ (object_end ++ rest)) hv (omega arith))
      ∙ decode_object_inner-encode utf8 fuel more rest (insert_property acc k (settled v)) h
          (omega arith)

-- A number whose two highest bytes are 0 and 9 looks like the end of an object, where it stands outside of one.
unfoldable pub Clear : Amf0Value → Type 0
Clear (number n) = (n / 2 ^ 48 == 9) ≡ false
Clear _ = Unit

begins :
    (utf8 : Utf8) (v : Amf0Value) (rest : List ℕ)
    → Fits utf8 v
    → Clear v
    → starts_with (encode_value utf8 v ++ rest) object_end ≡ false
unfolding Clear Fits encode_value starts_with
begins utf8 (number n) rest h c = ground arith
begins utf8 _ rest h c = refl

length-encode_value_pos : (utf8 : Utf8) (v : Amf0Value) → 0 < length (encode_value utf8 v)
unfolding encode_value
length-encode_value_pos utf8 (number n) = omega arith
length-encode_value_pos utf8 _ = omega arith

decode_loop-encode :
    (utf8 : Utf8) (fuel : ℕ) (vs values : List Amf0Value)
    → All (λ v. Fits utf8 v × Clear v) vs
    → length (encode utf8 vs) < fuel
    → decode_loop utf8 fuel (encode utf8 vs) values ≡ got (values ++ map settled vs) []
unfolding decode_loop encode
decode_loop-encode utf8 zero vs values h le = absurd (omega arith)
decode_loop-encode utf8 (suc fuel) [] values h le = ap (λ xs. got xs []) (sym (append-nil values))
decode_loop-encode utf8 (suc fuel) (v ∷ vs) values (h, hs) le =
    let here = encode_value utf8 v ++ encode utf8 vs in
    let size : length here ≡ length (encode_value utf8 v) + length (encode utf8 vs) =
      length-append (encode_value utf8 v) (encode utf8 vs) in
    let pos : 0 < length (encode_value utf8 v) = length-encode_value_pos utf8 v in
    let some_left : (length here == 0) ≡ false = ground arith in
    rw
      (
        some_left,
        begins utf8 v (encode utf8 vs) h.0 h.1,
        decode_value-encode_value utf8 (suc fuel) v (encode utf8 vs) h.0 (omega arith),
      )
      (decode_loop-encode utf8 fuel vs (values ++ (settled v ∷ [])) hs (omega arith)
        ∙ ap (λ xs. got xs []) (append_assoc values (settled v ∷ []) (map settled vs)))

-- Values that are encoded one behind the other are decoded to the same values, with nothing left, but for undefined,
-- which comes back as null. Each fits the format (numbers of 64 bits, texts of less than 2 ^ 16 bytes that the
-- standard library reads back, keys that differ and are not empty), and no number outside an object has 0 and 9 as
-- its highest bytes.
pub decode-encode :
    (utf8 : Utf8) (vs : List Amf0Value)
    → All (λ v. Fits utf8 v × Clear v) vs
    → decode utf8 (encode utf8 vs) ≡ got (map settled vs) []
unfolding decode
decode-encode utf8 vs h =
    decode_loop-encode utf8 (suc (length (encode utf8 vs))) vs [] h (omega arith)
