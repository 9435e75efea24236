-- ===== src/Lexer/Charset/Ascii.antt =====
-- ASCII: bytes survive.
use covscript.Prelude.{ℕ, ◌%◌, ◌<◌, [], ◌∷◌, All, ◌≡◌, refl, arith}
use covscript.Prelude.Names.{Bytes}
use covscript.Lexer.Charset.{widen, ascii_local2wide, ascii_wide2local}

-- Every element is a byte.
abbrev pub AreBytes : Bytes → Type 0
AreBytes = All (λ b. b < 256)

widen-mod : (b : ℕ) → b < 256 → widen b % 256 ≡ b
widen-mod b h = ground arith

-- ASCII conversion keeps every byte, those from 128 on too.
ascii_wide2local-ascii_local2wide :
    (local : Bytes) → AreBytes local → ascii_wide2local (ascii_local2wide local) ≡ local
unfolding ascii_local2wide ascii_wide2local
ascii_wide2local-ascii_local2wide [] h = refl
ascii_wide2local-ascii_local2wide (b ∷ local) h =
    rw (widen-mod b h.0, ascii_wide2local-ascii_local2wide local h.1) refl
