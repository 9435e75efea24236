-- ===== src/Lexer/Charset/Gbk.antt =====
-- GBK: what conversion keeps.
use covscript.Prelude.{
  ok-injective, ℕ, ◌%◌, ◌*◌, ◌/◌, ◌<◌, ◌≤◌, ◌+◌, Bool, true, false, ◌||◌, List, [], ◌∷◌, All, none,
  ltb, leb, Bool-cases, inl, inr, ok, ◌>>=◌, bind-eq-ok, ap, subst, ◌≡◌, refl, sym, ◌∙◌, arith,
}
use covscript.Prelude.Names.{Bytes}
use covscript.Lexer.Charset.{
  widen, set_zero, decode_gbk, encode_gbk, is_gbk_double_byte, gbk_is_identifier,
}
use covscript.Lexer.Charset.Ascii.{AreBytes}

-- A character that the conversions know: ASCII, or two bytes in the ranges of GBK.
abbrev pub Known : ℕ → Type 0
Known ch = (ltb ch 128 || is_gbk_double_byte ch) ≡ true

double_byte-bounds : (ch : ℕ) → is_gbk_double_byte ch ≡ true → (33088 ≤ ch) × (ch ≤ 65184)
unfolding is_gbk_double_byte
double_byte-bounds ch h = ground arith

-- The two bytes of a pair make its character.
pair_lem :
    (head tail : ℕ)
    → 128 ≤ head
    → head < 256
    → tail < 256
    → set_zero (widen head * 256 % 4294967296 + tail) ≡ head * 256 + tail
pair_lem head tail low high small = ground arith

-- The head byte of a pair, and its way through `decode_gbk`.
high-bounds : (ch : ℕ) → 33088 ≤ ch → ch ≤ 65184 → 128 ≤ ch / 256 % 256
high-bounds ch low high = omega arith

joined :
    (ch : ℕ)
    → 33088 ≤ ch
    → ch ≤ 65184
    → ((ch / 256 % 256 + 4294967040) * 256 % 4294967296 + ch % 256) % 65536 ≡ ch
joined ch low high = omega arith

ascii_lem :
    (ch : ℕ)
    → ltb ch 128 ≡ true
    → (ch % 256 ≡ ch) × (ch % 65536 ≡ ch) × (is_gbk_double_byte ch ≡ false)
unfolding is_gbk_double_byte
ascii_lem ch h = (ground arith, ground arith, ground arith)

or_true : (a b : Bool) → (a || b) ≡ true → a ≡ false → b ≡ true
or_true a b h g = ground arith

high_lem : (n : ℕ) → 128 ≤ n → ltb n 128 ≡ false
high_lem n h = ground arith

-- A text of known characters comes back from its bytes.
decode_gbk-encode_gbk :
    (wide : List ℕ) → All Known wide → decode_gbk (encode_gbk wide) none ≡ ok wide
unfolding decode_gbk encode_gbk
decode_gbk-encode_gbk [] h = refl
decode_gbk-encode_gbk (ch ∷ wide) h = elim (Bool-cases (ltb ch 128)) [
  | inl plain ↦
      let (same_byte, same_char, single) = ascii_lem ch plain in
      rw (encode_gbk, single, same_byte, decode_gbk, plain, decode_gbk-encode_gbk wide h.1)
        (ap (λ c. ok (c ∷ wide)) same_char)
  | inr double ↦
      let pair = or_true (ltb ch 128) (is_gbk_double_byte ch) h.0 double in
      let (low, high) = double_byte-bounds ch pair in
      rw
        (
          encode_gbk,
          pair,
          decode_gbk,
          high_lem (ch / 256 % 256) (high-bounds ch low high),
          decode_gbk-encode_gbk wide h.1,
        )
        (ap (λ c. ok (c ∷ wide)) (joined ch low high))
]

decode-plain :
    (byte : ℕ) (local : Bytes)
    → ltb byte 128 ≡ true
    → (decode_gbk local none >>= λ w. ok (byte % 65536 ∷ w)) ≡ decode_gbk (byte ∷ local) none
unfolding decode_gbk
decode-plain byte local plain = rw (decode_gbk, plain) refl

decode-double :
    (byte tail : ℕ) (local : Bytes)
    → ltb byte 128 ≡ false
    → byte < 256
    → tail < 256
    → (decode_gbk local none >>= λ w. ok ((byte * 256 + tail) ∷ w))
      ≡ decode_gbk (byte ∷ tail ∷ local) none
unfolding decode_gbk
decode-double byte tail local double small_byte small_tail =
    rw (decode_gbk, sym (pair_lem byte tail (ground arith) small_byte small_tail), double) refl

split_lem :
    (byte tail : ℕ)
    → ltb byte 128 ≡ false
    → byte < 256
    → tail < 256
    → ((byte * 256 + tail) / 256 % 256 ≡ byte)
      × ((byte * 256 + tail) % 256 ≡ tail)
      × (ltb (byte * 256 + tail) 128 ≡ false)
split_lem byte tail double small_byte small_tail = (omega arith, omega arith, ground arith)

-- The claim for the bytes that are left.
abbrev Returns : Bytes → Type 0
Returns local =
    (wide : List ℕ) → decode_gbk local none ≡ ok wide → All Known wide → encode_gbk wide ≡ local

plain-Returns :
    (byte : ℕ) (local : Bytes) → ltb byte 128 ≡ true → Returns local → Returns (byte ∷ local)
unfolding decode_gbk encode_gbk
plain-Returns byte local plain rest wide h =
    let (same_byte, same_char, single) = ascii_lem byte plain in
    let (w, decoded, is_wide) =
      bind-eq-ok (decode_gbk local none) (λ w. ok (byte % 65536 ∷ w)) {t = wide}
        (decode-plain byte local plain ∙ h) in
    subst (λ u. All Known u → encode_gbk u ≡ byte ∷ local) (ok-injective _ _ is_wide)
      (λ k. rw (same_char, encode_gbk, single, same_byte) (ap (λ l. byte ∷ l) (rest w decoded k.1)))

double-Returns :
    (byte tail : ℕ) (local : Bytes)
    → ltb byte 128 ≡ false
    → byte < 256
    → tail < 256
    → Returns local
    → Returns (byte ∷ tail ∷ local)
unfolding decode_gbk encode_gbk
double-Returns byte tail local double small_byte small_tail rest wide h =
    let (w, decoded, is_wide) =
      bind-eq-ok (decode_gbk local none) (λ w. ok ((byte * 256 + tail) ∷ w)) {t = wide}
        (decode-double byte tail local double small_byte small_tail ∙ h) in
    subst (λ u. All Known u → encode_gbk u ≡ byte ∷ tail ∷ local) (ok-injective _ _ is_wide)
      (λ k.
        let (upper, lower, big) = split_lem byte tail double small_byte small_tail in
        let pair =
          or_true (ltb (byte * 256 + tail) 128) (is_gbk_double_byte (byte * 256 + tail)) k.0 big in
        rw (encode_gbk, pair, upper, lower) (ap (λ l. byte ∷ tail ∷ l) (rest w decoded k.1)))

-- Bytes that are decoded to known characters come back from these.
pub encode_gbk-decode_gbk :
    (local : Bytes) (wide : List ℕ)
    → AreBytes local
    → decode_gbk local none ≡ ok wide
    → All Known wide
    → encode_gbk wide ≡ local
unfolding decode_gbk encode_gbk
encode_gbk-decode_gbk [] [] b h k = refl
encode_gbk-decode_gbk [] (ch ∷ wide) b h k = cc
encode_gbk-decode_gbk (byte ∷ []) wide b h k = elim (Bool-cases (ltb byte 128)) [
  | inl plain ↦
      plain-Returns byte [] plain (λ w h' k'. encode_gbk-decode_gbk [] w tt h' k') wide h k
  | inr double ↦ absurd (ground (arith, h, double))
]
encode_gbk-decode_gbk (byte ∷ tail ∷ local) wide b h k = elim (Bool-cases (ltb byte 128)) [
  | inl plain ↦
      plain-Returns byte (tail ∷ local) plain
        (λ w h' k'. encode_gbk-decode_gbk (tail ∷ local) w b.1 h' k') wide h k
  | inr double ↦
      double-Returns byte tail local double b.0 b.1.0
        (λ w h' k'. encode_gbk-decode_gbk local w b.1.1 h' k') wide h k
]

-- Where `iswalnum` holds of ASCII characters only, as in the "C" locale, each character of 16
-- bits that may stand in an identifier is known to the conversions.
gbk_is_identifier-Known :
    (iswalnum : ℕ → Bool) (ch : ℕ)
    → ((c : ℕ) → iswalnum c ≡ true → c < 128)
    → ch < 65536
    → gbk_is_identifier iswalnum ch ≡ true
    → Known ch
unfolding gbk_is_identifier is_gbk_double_byte
gbk_is_identifier-Known iswalnum ch is_ascii small h = elim (Bool-cases (leb 32768 (ch % 65536))) [
  | inl upper ↦ ground (arith, upper, h)
  | inr lower ↦ ground (arith, lower, h, is_ascii ch)
]
