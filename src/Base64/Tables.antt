-- ===== src/Base64/Tables.antt =====
-- The four tables of mcl_core/src/base64.c, read by index.
use Prim.Native.String.{String}
use Prim.Native.Char.{code}
use mindconnect_lib.Base.{ℕ, List, [], ◌∷◌}

-- The characters of a literal, as numbers.
abbrev codes : String → List ℕ
codes String.[] = []
codes (String.◌∷◌ c s) = code c ∷ codes s

abbrev pub base64_encode_table : List ℕ
base64_encode_table = codes "ABCDEFGHIJKLMNOPQRSTUVWXYZabcdefghijklmnopqrstuvwxyz0123456789+/"

abbrev pub base64_url_encode_table : List ℕ
base64_url_encode_table = codes "ABCDEFGHIJKLMNOPQRSTUVWXYZabcdefghijklmnopqrstuvwxyz0123456789-_"

abbrev pub base64_decode_table : List ℕ
base64_decode_table =
    0xff ∷ 0xff ∷ 0xff ∷ 0xff ∷ 0xff ∷ 0xff ∷ 0xff ∷ 0xff ∷ 0xff ∷ 0xff ∷ 0xff ∷ 0xff ∷ 0xff ∷ 0xff
    ∷ 0xff ∷ 0xff ∷ 0xff ∷ 0xff ∷ 0xff ∷ 0xff ∷ 0xff ∷ 0xff ∷ 0xff ∷ 0xff ∷ 0xff ∷ 0xff ∷ 0xff
    ∷ 0xff ∷ 0xff ∷ 0xff ∷ 0xff ∷ 0xff ∷ 0xff ∷ 0xff ∷ 0xff ∷ 0xff ∷ 0xff ∷ 0xff ∷ 0xff ∷ 0xff
    ∷ 0xff ∷ 0xff ∷ 0xff ∷ 0x3e ∷ 0xff ∷ 0xff ∷ 0xff ∷ 0x3f ∷ 0x34 ∷ 0x35 ∷ 0x36 ∷ 0x37 ∷ 0x38
    ∷ 0x39 ∷ 0x3a ∷ 0x3b ∷ 0x3c ∷ 0x3d ∷ 0xff ∷ 0xff ∷ 0xff ∷ 0xff ∷ 0xff ∷ 0xff ∷ 0xff ∷ 0x00
    ∷ 0x01 ∷ 0x02 ∷ 0x03 ∷ 0x04 ∷ 0x05 ∷ 0x06 ∷ 0x07 ∷ 0x08 ∷ 0x09 ∷ 0x0a ∷ 0x0b ∷ 0x0c ∷ 0x0d
    ∷ 0x0e ∷ 0x0f ∷ 0x10 ∷ 0x11 ∷ 0x12 ∷ 0x13 ∷ 0x14 ∷ 0x15 ∷ 0x16 ∷ 0x17 ∷ 0x18 ∷ 0x19 ∷ 0xff
    ∷ 0xff ∷ 0xff ∷ 0xff ∷ 0xff ∷ 0xff ∷ 0x1a ∷ 0x1b ∷ 0x1c ∷ 0x1d ∷ 0x1e ∷ 0x1f ∷ 0x20 ∷ 0x21
    ∷ 0x22 ∷ 0x23 ∷ 0x24 ∷ 0x25 ∷ 0x26 ∷ 0x27 ∷ 0x28 ∷ 0x29 ∷ 0x2a ∷ 0x2b ∷ 0x2c ∷ 0x2d ∷ 0x2e
    ∷ 0x2f ∷ 0x30 ∷ 0x31 ∷ 0x32 ∷ 0x33 ∷ 0xff ∷ 0xff ∷ 0xff ∷ 0xff ∷ 0xff ∷ 0xff ∷ 0xff ∷ 0xff
    ∷ 0xff ∷ 0xff ∷ 0xff ∷ 0xff ∷ 0xff ∷ 0xff ∷ 0xff ∷ 0xff ∷ 0xff ∷ 0xff ∷ 0xff ∷ 0xff ∷ 0xff
    ∷ 0xff ∷ 0xff ∷ 0xff ∷ 0xff ∷ 0xff ∷ 0xff ∷ 0xff ∷ 0xff ∷ 0xff ∷ 0xff ∷ 0xff ∷ 0xff ∷ 0xff
    ∷ 0xff ∷ 0xff ∷ 0xff ∷ 0xff ∷ 0xff ∷ 0xff ∷ 0xff ∷ 0xff ∷ 0xff ∷ 0xff ∷ 0xff ∷ 0xff ∷ 0xff
    ∷ 0xff ∷ 0xff ∷ 0xff ∷ 0xff ∷ 0xff ∷ 0xff ∷ 0xff ∷ 0xff ∷ 0xff ∷ 0xff ∷ 0xff ∷ 0xff ∷ 0xff
    ∷ 0xff ∷ 0xff ∷ 0xff ∷ 0xff ∷ 0xff ∷ 0xff ∷ 0xff ∷ 0xff ∷ 0xff ∷ 0xff ∷ 0xff ∷ 0xff ∷ 0xff
    ∷ 0xff ∷ 0xff ∷ 0xff ∷ 0xff ∷ 0xff ∷ 0xff ∷ 0xff ∷ 0xff ∷ 0xff ∷ 0xff ∷ 0xff ∷ 0xff ∷ 0xff
    ∷ 0xff ∷ 0xff ∷ 0xff ∷ 0xff ∷ 0xff ∷ 0xff ∷ 0xff ∷ 0xff ∷ 0xff ∷ 0xff ∷ 0xff ∷ 0xff ∷ 0xff
    ∷ 0xff ∷ 0xff ∷ 0xff ∷ 0xff ∷ 0xff ∷ 0xff ∷ 0xff ∷ 0xff ∷ 0xff ∷ 0xff ∷ 0xff ∷ 0xff ∷ 0xff
    ∷ 0xff ∷ 0xff ∷ 0xff ∷ 0xff ∷ 0xff ∷ 0xff ∷ 0xff ∷ 0xff ∷ 0xff ∷ 0xff ∷ 0xff ∷ 0xff ∷ 0xff
    ∷ 0xff ∷ 0xff ∷ 0xff ∷ 0xff ∷ 0xff ∷ 0xff ∷ 0xff ∷ 0xff ∷ []

abbrev pub base64_url_decode_table : List ℕ
base64_url_decode_table =
    0xff ∷ 0xff ∷ 0xff ∷ 0xff ∷ 0xff ∷ 0xff ∷ 0xff ∷ 0xff ∷ 0xff ∷ 0xff ∷ 0xff ∷ 0xff ∷ 0xff ∷ 0xff
    ∷ 0xff ∷ 0xff ∷ 0xff ∷ 0xff ∷ 0xff ∷ 0xff ∷ 0xff ∷ 0xff ∷ 0xff ∷ 0xff ∷ 0xff ∷ 0xff ∷ 0xff
    ∷ 0xff ∷ 0xff ∷ 0xff ∷ 0xff ∷ 0xff ∷ 0xff ∷ 0xff ∷ 0xff ∷ 0xff ∷ 0xff ∷ 0xff ∷ 0xff ∷ 0xff
    ∷ 0xff ∷ 0xff ∷ 0xff ∷ 0xff ∷ 0xff ∷ 0x3e ∷ 0xff ∷ 0xff ∷ 0x34 ∷ 0x35 ∷ 0x36 ∷ 0x37 ∷ 0x38
    ∷ 0x39 ∷ 0x3a ∷ 0x3b ∷ 0x3c ∷ 0x3d ∷ 0xff ∷ 0xff ∷ 0xff ∷ 0xff ∷ 0xff ∷ 0xff ∷ 0xff ∷ 0x00
    ∷ 0x01 ∷ 0x02 ∷ 0x03 ∷ 0x04 ∷ 0x05 ∷ 0x06 ∷ 0x07 ∷ 0x08 ∷ 0x09 ∷ 0x0a ∷ 0x0b ∷ 0x0c ∷ 0x0d
    ∷ 0x0e ∷ 0x0f ∷ 0x10 ∷ 0x11 ∷ 0x12 ∷ 0x13 ∷ 0x14 ∷ 0x15 ∷ 0x16 ∷ 0x17 ∷ 0x18 ∷ 0x19 ∷ 0xff
    ∷ 0xff ∷ 0xff ∷ 0xff ∷ 0x3f ∷ 0xff ∷ 0x1a ∷ 0x1b ∷ 0x1c ∷ 0x1d ∷ 0x1e ∷ 0x1f ∷ 0x20 ∷ 0x21
    ∷ 0x22 ∷ 0x23 ∷ 0x24 ∷ 0x25 ∷ 0x26 ∷ 0x27 ∷ 0x28 ∷ 0x29 ∷ 0x2a ∷ 0x2b ∷ 0x2c ∷ 0x2d ∷ 0x2e
    ∷ 0x2f ∷ 0x30 ∷ 0x31 ∷ 0x32 ∷ 0x33 ∷ 0xff ∷ 0xff ∷ 0xff ∷ 0xff ∷ 0xff ∷ 0xff ∷ 0xff ∷ 0xff
    ∷ 0xff ∷ 0xff ∷ 0xff ∷ 0xff ∷ 0xff ∷ 0xff ∷ 0xff ∷ 0xff ∷ 0xff ∷ 0xff ∷ 0xff ∷ 0xff ∷ 0xff
    ∷ 0xff ∷ 0xff ∷ 0xff ∷ 0xff ∷ 0xff ∷ 0xff ∷ 0xff ∷ 0xff ∷ 0xff ∷ 0xff ∷ 0xff ∷ 0xff ∷ 0xff
    ∷ 0xff ∷ 0xff ∷ 0xff ∷ 0xff ∷ 0xff ∷ 0xff ∷ 0xff ∷ 0xff ∷ 0xff ∷ 0xff ∷ 0xff ∷ 0xff ∷ 0xff
    ∷ 0xff ∷ 0xff ∷ 0xff ∷ 0xff ∷ 0xff ∷ 0xff ∷ 0xff ∷ 0xff ∷ 0xff ∷ 0xff ∷ 0xff ∷ 0xff ∷ 0xff
    ∷ 0xff ∷ 0xff ∷ 0xff ∷ 0xff ∷ 0xff ∷ 0xff ∷ 0xff ∷ 0xff ∷ 0xff ∷ 0xff ∷ 0xff ∷ 0xff ∷ 0xff
    ∷ 0xff ∷ 0xff ∷ 0xff ∷ 0xff ∷ 0xff ∷ 0xff ∷ 0xff ∷ 0xff ∷ 0xff ∷ 0xff ∷ 0xff ∷ 0xff ∷ 0xff
    ∷ 0xff ∷ 0xff ∷ 0xff ∷ 0xff ∷ 0xff ∷ 0xff ∷ 0xff ∷ 0xff ∷ 0xff ∷ 0xff ∷ 0xff ∷ 0xff ∷ 0xff
    ∷ 0xff ∷ 0xff ∷ 0xff ∷ 0xff ∷ 0xff ∷ 0xff ∷ 0xff ∷ 0xff ∷ 0xff ∷ 0xff ∷ 0xff ∷ 0xff ∷ 0xff
    ∷ 0xff ∷ 0xff ∷ 0xff ∷ 0xff ∷ 0xff ∷ 0xff ∷ 0xff ∷ 0xff ∷ 0xff ∷ 0xff ∷ 0xff ∷ 0xff ∷ 0xff
    ∷ 0xff ∷ 0xff ∷ 0xff ∷ 0xff ∷ 0xff ∷ 0xff ∷ 0xff ∷ 0xff ∷ []
