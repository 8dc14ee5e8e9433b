-- ===== src/Hls/Checksum.antt =====
-- The checksum of PSI sections in src/server/hls/ts_muxer.rs, and that a section with its checksum behind
-- it has the checksum zero, which is what a receiver tests.
use vcp_media_server.Prelude.{
  ℕ, zero, suc, ◌+◌, ◌*◌, ◌/◌, ◌%◌, ◌^◌, ◌<◌, ◌≡◌, refl, sym, ◌∙◌, List, [], ◌∷◌, ◌++◌, arith, ◌==◌,
  if◌then◌else◌,
}

-- `^` on the low `width` bits.
unfoldable pub xor_bits : ℕ → ℕ → ℕ → ℕ
xor_bits zero a b = 0
xor_bits (suc width) a b = (a % 2 + b % 2) % 2 + 2 * xor_bits width (a / 2) (b / 2)

-- The inner loop of `CRC32_TABLE`, on fuel for its eight rounds.
unfoldable pub crc_shift : ℕ → ℕ → ℕ
crc_shift zero crc = crc
crc_shift (suc n) crc =
    crc_shift n (
      if crc / 2 ^ 31 % 2 == 0 then crc * 2 % 2 ^ 32 else xor_bits 32 (crc * 2 % 2 ^ 32) 0x04C11DB7)

unfoldable pub crc32_table : ℕ → ℕ
crc32_table i = crc_shift 8 (i * 2 ^ 24)

unfoldable pub crc32_step : ℕ → ℕ → ℕ
crc32_step crc byte =
    xor_bits 32 (crc * 2 ^ 8 % 2 ^ 32) (crc32_table (xor_bits 32 (crc / 2 ^ 24) byte % 2 ^ 8))

unfoldable pub crc32_from : ℕ → List ℕ → ℕ
crc32_from crc [] = crc
crc32_from crc (byte ∷ bytes) = crc32_from (crc32_step crc byte) bytes

unfoldable pub crc32 : List ℕ → ℕ
crc32 bytes = crc32_from 0xFFFFFFFF bytes

-- `to_be_bytes`
abbrev pub be_bytes : ℕ → List ℕ
be_bytes n = n / 2 ^ 24 % 256 ∷ n / 2 ^ 16 % 256 ∷ n / 2 ^ 8 % 256 ∷ n % 256 ∷ []

xor_bits_self : (width a : ℕ) → xor_bits width a a ≡ 0
unfolding xor_bits
xor_bits_self zero a = refl
xor_bits_self (suc width) a = omega (arith, xor_bits_self width (a / 2))

-- `a` has no bit from `width` on.
unfoldable Narrow : ℕ → ℕ → Type 0
Narrow zero a = a ≡ 0
Narrow (suc width) a = Narrow width (a / 2)

xor_bits_zero : (width a : ℕ) → Narrow width a → xor_bits width a 0 ≡ a
unfolding xor_bits Narrow
xor_bits_zero zero a h = sym h
xor_bits_zero (suc width) a h = omega (arith, xor_bits_zero width (a / 2) h)

halves : (n : ℕ) → n < 2 ^ 32 → Narrow 32 n
unfolding Narrow
halves n h = omega arith

crc32_from-append :
    (crc : ℕ) (xs ys : List ℕ) → crc32_from crc (xs ++ ys) ≡ crc32_from (crc32_from crc xs) ys
unfolding crc32_from
crc32_from-append crc [] ys = refl
crc32_from-append crc (x ∷ xs) ys = crc32_from-append (crc32_step crc x) xs ys

-- A byte equal to the top one shifts the register.
crc32_step_top : (crc byte : ℕ) → byte ≡ crc / 2 ^ 24 → crc32_step crc byte ≡ crc * 2 ^ 8 % 2 ^ 32
unfolding crc32_step crc32_table crc_shift
crc32_step_top crc byte e = rw e (
    rw (xor_bits_self 32 (crc / 2 ^ 24))
      (xor_bits_zero 32 (crc * 2 ^ 8 % 2 ^ 32) (halves (crc * 2 ^ 8 % 2 ^ 32) (omega arith))))

-- Four bytes that hold the register clear it.
crc32_from-be_bytes : (crc : ℕ) → crc < 2 ^ 32 → crc32_from crc (be_bytes crc) ≡ 0
unfolding crc32_from
crc32_from-be_bytes crc h =
    let c1 : ℕ = crc * 2 ^ 8 % 2 ^ 32 in
    let c2 : ℕ = c1 * 2 ^ 8 % 2 ^ 32 in
    let c3 : ℕ = c2 * 2 ^ 8 % 2 ^ 32 in
    rw (crc32_step_top crc (crc / 2 ^ 24 % 256) (omega arith)) (
      rw (crc32_step_top c1 (crc / 2 ^ 16 % 256) (omega arith)) (
        rw (crc32_step_top c2 (crc / 2 ^ 8 % 256) (omega arith))
          (rw (crc32_step_top c3 (crc % 256) (omega arith)) (omega arith))))

xor_bits-Narrow : (width a b : ℕ) → Narrow width (xor_bits width a b)
unfolding xor_bits Narrow
xor_bits-Narrow zero a b = refl
xor_bits-Narrow (suc width) a b =
    let half : ((a % 2 + b % 2) % 2 + 2 * xor_bits width (a / 2) (b / 2)) / 2
        ≡ xor_bits width (a / 2) (b / 2) =
      omega arith in
    rw half (xor_bits-Narrow width (a / 2) (b / 2))

Narrow-lt : (n : ℕ) → Narrow 32 n → n < 2 ^ 32
unfolding Narrow
Narrow-lt n h = omega arith

crc32_from_bound : (crc : ℕ) (bytes : List ℕ) → crc < 2 ^ 32 → crc32_from crc bytes < 2 ^ 32
unfolding crc32_from crc32_step
crc32_from_bound crc [] h = h
crc32_from_bound crc (byte ∷ bytes) h =
    crc32_from_bound
      (xor_bits 32 (crc * 2 ^ 8 % 2 ^ 32) (crc32_table (xor_bits 32 (crc / 2 ^ 24) byte % 2 ^ 8)))
      bytes (Narrow-lt _ (xor_bits-Narrow 32 _ _))

-- A section with its checksum behind it, high byte first, has the checksum zero.
crc32-be_bytes : (bytes : List ℕ) → crc32 (bytes ++ be_bytes (crc32 bytes)) ≡ 0
unfolding crc32
crc32-be_bytes bytes =
    crc32_from-append 0xFFFFFFFF bytes (be_bytes (crc32_from 0xFFFFFFFF bytes))
    ∙ crc32_from-be_bytes (crc32_from 0xFFFFFFFF bytes)
        (crc32_from_bound 0xFFFFFFFF bytes (omega arith))
