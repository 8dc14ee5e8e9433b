-- ===== src/Rtmp/Amf0.antt =====
-- src/server/rtmp/amf0.rs: AMF0 values, their encoder and their decoder. An f64 is the number that its 64 bits
-- are. A `HashMap` is the list of its entries in the order in which it is iterated. The decoder works on what is
-- left of the data: the source's offset is what has been taken off. An error keeps what is left, since
-- an object goes on behind a property that fails; its text is left out.
pub mod Keys
pub mod Returns
pub mod RoundTrip
use text.Mathlib.Text.{◌==◌ as ◌=ˢ◌}
use vcp_media_server.Prelude.{
  ℕ, zero, suc, ◌+◌, ◌*◌, ◌/◌, ◌%◌, ◌^◌, String, Bool, not, Option, none, some, List, [], ◌∷◌, ◌++◌,
  length, take, drop, ltb, ◌==◌, if◌then◌else◌,
}
use vcp_media_server.Prelude.Bytes.{starts_with}
use vcp_media_server.Rtmp.Chunk.{byte_at, be32, put32}

mutual
  pub data Amf0Value : Type 0 where
    number : ℕ → Amf0Value
    boolean : Bool → Amf0Value
    string : String → Amf0Value
    object : Properties → Amf0Value
    null undefined : Amf0Value
    ecma_array : Properties → Amf0Value

  pub data Properties : Type 0 where
    no_properties : Properties
    property : String → Amf0Value → Properties → Properties

-- The standard library's text: `String::as_bytes` and `String::from_utf8_lossy`.
pub record Utf8 : Type 0 where
  pub as_bytes : String → List ℕ
  pub from_utf8_lossy : List ℕ → String

unfoldable pub as_str : Amf0Value → Option String
as_str (string s) = some s
as_str _ = none

unfoldable pub as_f64 : Amf0Value → Option ℕ
as_f64 (number n) = some n
as_f64 _ = none

unfoldable pub as_bool : Amf0Value → Option Bool
as_bool (boolean b) = some b
as_bool _ = none

unfoldable pub as_object : Amf0Value → Option Properties
as_object (object map) = some map
as_object (ecma_array map) = some map
as_object _ = none

-- `HashMap::get`, `insert` and `len`
unfoldable pub get_property : Properties → String → Option Amf0Value
get_property no_properties k = none
get_property (property key v rest) k =
    let later = get_property rest k in if key =ˢ k then some v else later

unfoldable pub insert_property : Properties → String → Amf0Value → Properties
insert_property no_properties k v = property k v no_properties
insert_property (property key old rest) k v =
    let later = insert_property rest k v in
    if key =ˢ k then property k v rest else property key old later

unfoldable pub count : Properties → ℕ
count no_properties = 0
count (property key v rest) = suc (count rest)

abbrev pub object_end : List ℕ
object_end = 0 ∷ 0 ∷ 9 ∷ []

-- `u16` as two bytes, and `f64::to_be_bytes`.
abbrev pub put16 : ℕ → List ℕ
put16 n = n / 2 ^ 8 % 256 ∷ n % 256 ∷ []

abbrev pub put64 : ℕ → List ℕ
put64 n =
    n / 2 ^ 56 % 256
    ∷ n / 2 ^ 48 % 256
    ∷ n / 2 ^ 40 % 256
    ∷ n / 2 ^ 32 % 256
    ∷ n / 2 ^ 24 % 256
    ∷ n / 2 ^ 16 % 256
    ∷ n / 2 ^ 8 % 256
    ∷ n % 256
    ∷ []

abbrev pub be16 : List ℕ → ℕ
be16 bytes = byte_at bytes 0 * 2 ^ 8 + byte_at bytes 1

-- `f64::from_be_bytes`
abbrev pub be64 : List ℕ → ℕ
be64 bytes = be32 bytes 0 * 2 ^ 32 + be32 bytes 4

-- A text behind its length.
unfoldable pub encode_text : Utf8 → String → List ℕ
encode_text utf8 s = put16 (length (utf8.as_bytes s) % 2 ^ 16) ++ utf8.as_bytes s

-- What the calls append to the buffer.
unfoldable mutual
  pub encode_value : Utf8 → Amf0Value → List ℕ
  encode_value utf8 (number n) = 0x00 ∷ put64 n
  encode_value utf8 (boolean b) = 0x01 ∷ (if b then 1 else 0) ∷ []
  encode_value utf8 (string s) = 0x02 ∷ encode_text utf8 s
  encode_value utf8 (object map) = 0x03 ∷ (encode_object_properties utf8 map ++ object_end)
  encode_value utf8 null = 0x05 ∷ []
  encode_value utf8 undefined = 0x06 ∷ []
  encode_value utf8 (ecma_array map) =
      0x08 ∷ (put32 (count map % 2 ^ 32) ++ (encode_object_properties utf8 map ++ object_end))

  pub encode_object_properties : Utf8 → Properties → List ℕ
  encode_object_properties utf8 no_properties = []
  encode_object_properties utf8 (property key v rest) =
      encode_text utf8 key ++ (encode_value utf8 v ++ encode_object_properties utf8 rest)

unfoldable pub encode : Utf8 → List Amf0Value → List ℕ
encode utf8 [] = []
encode utf8 (v ∷ vs) = encode_value utf8 v ++ encode utf8 vs

unfoldable pub encode_command : Utf8 → String → List ℕ
encode_command utf8 name = encode utf8 (string name ∷ [])

-- A result with what is left of the data.
pub data Decoded (A : Type 0) : Type 0 where
  got : A → List ℕ → Decoded A
  failed : List ℕ → Decoded A
  out_of_fuel : Decoded A

abbrev pub map_decoded : {A B : Type 0} → (A → B) → Decoded A → Decoded B
map_decoded f (got x rest) = got (f x) rest
map_decoded f (failed rest) = failed rest
map_decoded f out_of_fuel = out_of_fuel

unfoldable pub decode_string : Utf8 → List ℕ → Decoded String
decode_string utf8 bytes =
    let len = be16 bytes in
    let text = drop 2 bytes in
    if ltb (length bytes) 2
    then failed bytes
    else if ltb (length text) len
    then failed text
    else got (utf8.from_utf8_lossy (take len text)) (drop len text)

unfoldable pub decode_number : List ℕ → Decoded Amf0Value
decode_number bytes =
    if ltb (length bytes) 8 then failed bytes else got (number (be64 bytes)) (drop 8 bytes)

unfoldable pub decode_boolean : List ℕ → Decoded Amf0Value
decode_boolean bytes =
    if ltb (length bytes) 1
    then failed bytes
    else got (boolean (not (byte_at bytes 0 == 0))) (drop 1 bytes)

-- Each call spends one unit of fuel.
unfoldable mutual
  pub decode_value : Utf8 → ℕ → List ℕ → Decoded Amf0Value
  decode_value utf8 zero bytes = out_of_fuel
  decode_value utf8 (suc fuel) [] = failed []
  decode_value utf8 (suc fuel) (marker ∷ bytes) =
      let members = decode_object_inner utf8 fuel bytes no_properties in
      let elements = decode_object_inner utf8 fuel (drop 4 bytes) no_properties in
      if marker == 0x00
      then decode_number bytes
      else if marker == 0x01
      then decode_boolean bytes
      else if marker == 0x02
      then map_decoded string (decode_string utf8 bytes)
      else if marker == 0x03
      then map_decoded object members
      else if marker == 0x05
      then got null bytes
      else if marker == 0x06
      then got null bytes
      else if marker == 0x08
      then (if ltb (length bytes) 4 then failed bytes else map_decoded ecma_array elements)
      else failed bytes

  pub decode_object_inner : Utf8 → ℕ → List ℕ → Properties → Decoded Properties
  decode_object_inner utf8 zero bytes map = out_of_fuel
  decode_object_inner utf8 (suc fuel) bytes map =
      let key_len = be16 bytes in
      let named = drop 2 bytes in
      let more : Decoded Properties = elim (decode_value utf8 fuel (drop key_len named)) [
        | got v rest ↦
            decode_object_inner utf8 fuel rest
              (insert_property map (utf8.from_utf8_lossy (take key_len named)) v)
        | failed rest ↦ got map rest
        | out_of_fuel ↦ out_of_fuel
      ] in
      if starts_with bytes object_end
      then got map (drop 3 bytes)
      else if ltb (length bytes) 2
      then failed bytes
      else if key_len == 0
      then got map (if starts_with named (9 ∷ []) then drop 1 named else named)
      else if ltb (length named) key_len
      then failed named
      else more

-- The `while` loop of `decode`.
unfoldable pub decode_loop : Utf8 → ℕ → List ℕ → List Amf0Value → Decoded (List Amf0Value)
decode_loop utf8 zero bytes values = out_of_fuel
decode_loop utf8 (suc fuel) bytes values =
    let next : Decoded (List Amf0Value) = elim (decode_value utf8 (suc fuel) bytes) [
      | got v rest ↦ decode_loop utf8 fuel rest (values ++ (v ∷ []))
      | failed rest ↦ (if length values == 0 then failed rest else got values rest)
      | out_of_fuel ↦ out_of_fuel
    ] in
    if length bytes == 0
    then got values []
    else if starts_with bytes object_end
    then got values (drop 3 bytes)
    else next

-- Each round takes a byte at least.
unfoldable pub decode : Utf8 → List ℕ → Decoded (List Amf0Value)
decode utf8 bytes = decode_loop utf8 (suc (length bytes)) bytes []

-- `none`: an error.
unfoldable pub parse_command : Utf8 → List ℕ → Option (String × List Amf0Value)
parse_command utf8 payload = elim (decode utf8 payload) [
  | got (string s ∷ args) rest ↦ some (s, args)
  | _ ↦ none
]

unfoldable pub get_string_prop : Amf0Value → String → Option String
get_string_prop v key = elim (as_object v) [
  | some map ↦ elim (get_property map key) [ some x ↦ as_str x | none ↦ none ]
  | none ↦ none
]

unfoldable pub get_number_prop : Amf0Value → String → Option ℕ
get_number_prop v key = elim (as_object v) [
  | some map ↦ elim (get_property map key) [ some x ↦ as_f64 x | none ↦ none ]
  | none ↦ none
]
