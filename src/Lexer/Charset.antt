-- ===== src/Lexer/Charset.antt =====
-- The character sets of include/covscript/core/components.hpp and sources/compiler/lexer.cpp.
-- A byte is a number below 256 and a wide character one below 2 ^ 32. `char` is signed, so that
-- a byte from 128 on is sign-extended when it becomes a wide character. `iswalnum`, of the C
-- library, and the conversions of utf8.h are parameters.
pub mod Ascii
pub mod Gbk
use covscript.Prelude.{
  ℕ, ◌+◌, ◌*◌, ◌/◌, ◌%◌, Bool, ◌&&◌, ◌||◌, List, [], ◌∷◌, ◌++◌, Option, none, some, Result, ok, err,
  runtime_error, ◌>>=◌, ltb, leb, ◌==◌, if◌then◌else◌,
}
use covscript.Prelude.Names.{Bytes}

-- The class `charset`, with the two overloads of `local2wide` as one.
pub record Charset : Type 0 where
  pub local2wide : Bytes → Result (List ℕ)
  pub wide2local : List ℕ → Bytes
  pub is_identifier : ℕ → Bool

-- A `char` as a number of 32 bits.
abbrev pub widen : ℕ → ℕ
widen byte = if ltb byte 128 then byte else byte + 4294967040

-- `ch & 0x0000ffff`
abbrev pub set_zero : ℕ → ℕ
set_zero ch = ch % 65536

abbrev pub between : ℕ → ℕ → ℕ → Bool
between low high ch = leb low ch && leb ch high

unfoldable pub ascii_local2wide : Bytes → List ℕ
ascii_local2wide [] = []
ascii_local2wide (byte ∷ local) = widen byte ∷ ascii_local2wide local

unfoldable pub ascii_wide2local : List ℕ → Bytes
ascii_wide2local [] = []
ascii_wide2local (ch ∷ wide) = ch % 256 ∷ ascii_wide2local wide

-- `codecvt_gbk::local2wide` from the middle on. `head` is there when `read_next` is false.
unfoldable pub decode_gbk : Bytes → Option ℕ → Result (List ℕ)
decode_gbk [] none = ok []
decode_gbk [] (some head) = err (runtime_error "Codecvt: Bad encoding.")
decode_gbk (byte ∷ local) none =
    let wide = decode_gbk local none in
    let double = decode_gbk local (some (widen byte)) in
    if ltb byte 128 then (wide >>= λ w. ok (set_zero (widen byte) ∷ w)) else double
decode_gbk (tail ∷ local) (some head) =
    decode_gbk local none >>= λ w. ok (set_zero (head * 256 % 4294967296 + tail) ∷ w)

unfoldable pub is_gbk_double_byte : ℕ → Bool
is_gbk_double_byte ch =
    between 41377 43518 ch
    || between 45217 63486 ch
    || between 33088 41214 ch
    || between 43584 65184 ch
    || ch == 43414

unfoldable pub encode_gbk : List ℕ → Bytes
unfolding is_gbk_double_byte
encode_gbk [] = []
encode_gbk (ch ∷ wide) =
    let local = encode_gbk wide in
    if is_gbk_double_byte ch then ch / 256 % 256 ∷ ch % 256 ∷ local else ch % 256 ∷ local

-- `ch & 0x8000`
abbrev pub in_upper_block : ℕ → Bool
in_upper_block ch = leb 32768 (ch % 65536)

module _ (iswalnum : ℕ → Bool) where
  unfoldable pub ascii : Charset
  unfolding ascii_local2wide ascii_wide2local
  ascii = record {
    local2wide = λ local. ok (ascii_local2wide local);
    wide2local = ascii_wide2local;
    is_identifier = λ ch. ch == 95 || iswalnum ch;
  }

  unfoldable pub gbk_is_identifier : ℕ → Bool
  gbk_is_identifier ch =
      if in_upper_block ch
      then between 45217 63486 ch || between 33088 41214 ch || between 43584 65184 ch || ch == 43414
      else ch == 95 || iswalnum ch

  unfoldable pub gbk : Charset
  unfolding decode_gbk encode_gbk gbk_is_identifier
  gbk = record {
    local2wide = λ local. decode_gbk local none;
    wide2local = encode_gbk;
    is_identifier = gbk_is_identifier;
  }

  unfoldable pub utf8_is_identifier : ℕ → Bool
  utf8_is_identifier ch =
      if ltb 127 ch
      then between 19968 40869 ch || between 40870 40943 ch || ch == 12295
      else ch == 95 || iswalnum ch

  unfoldable pub utf8 : (Bytes → Result (List ℕ)) → (List ℕ → Bytes) → Charset
  unfolding utf8_is_identifier
  utf8 utf8to32 utf32to8 = record {
    local2wide = utf8to32;
    wide2local = utf32to8;
    is_identifier = utf8_is_identifier;
  }
