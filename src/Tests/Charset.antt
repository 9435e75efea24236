-- ===== src/Tests/Charset.antt =====
-- A text of one double-byte character and one of ASCII.
use covscript.Prelude.{
  ℕ, ◌<◌, Bool, true, ◌&&◌, leb, List, [], ◌∷◌, All, none, ok, ◌≡◌, refl, arith,
}
use covscript.Prelude.Names.{Bytes}
use covscript.Lexer.Charset.{decode_gbk, encode_gbk, is_gbk_double_byte, gbk_is_identifier}
use covscript.Lexer.Charset.Ascii.{AreBytes}
use covscript.Lexer.Charset.Gbk.{Known, encode_gbk-decode_gbk}

abbrev text : List ℕ
text = 51965 ∷ 97 ∷ []

abbrev bytes : Bytes
bytes = 202 ∷ 253 ∷ 97 ∷ []

text-Known : All Known text
unfolding is_gbk_double_byte
text-Known = (refl, (refl, tt))

bytes-AreBytes : AreBytes bytes
bytes-AreBytes = (omega arith, (omega arith, (omega arith, tt)))

decoded : decode_gbk bytes none ≡ ok text
unfolding decode_gbk
decoded = refl

abbrev is_lower : ℕ → Bool
is_lower c = leb 97 c && leb c 122

is_lower-lt : (c : ℕ) → is_lower c ≡ true → c < 128
is_lower-lt c h = ground arith

small : 51965 < 65536
small = omega arith

identifier : gbk_is_identifier is_lower 51965 ≡ true
unfolding gbk_is_identifier
identifier = refl

encode_gbk-decode_gbk_example : encode_gbk text ≡ bytes
encode_gbk-decode_gbk_example = encode_gbk-decode_gbk bytes text bytes-AreBytes decoded text-Known
