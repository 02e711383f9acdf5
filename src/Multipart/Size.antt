-- ===== src/Multipart/Size.antt =====
-- The sizes that callers of multipart.c reckon with, its boundaries and its closing line.
use mindconnect_lib.Base.{
  ℕ, zero, suc, ◌<◌, ◌≤◌, ◌+◌, ◌-◌, ◌*◌, ◌%◌, ◌≡◌, refl, ap, ◌∙◌, Bool, true, false, ◌&&◌, ◌||◌,
  none, some, List, [], ◌∷◌, ◌++◌, map, All, length, length-append, take, drop, get_or, arith, leb,
}
use mindconnect_lib.Base.Code.{ok}
use mindconnect_lib.StringUtil.{CString, mcl_string_util_strlen, string_util_strlen}
use mindconnect_lib.Multipart.States.{boundary_sign, boundary_characters}
use mindconnect_lib.Multipart.Copy.{Item, memcpy}
use mindconnect_lib.Multipart.Tuple.{
  multipart_get_tuple_size, multipart_get_overhead_size, multipart_close,
  multipart_generate_boundary, boundary_character,
}
use mindconnect_lib.Multipart.Message.{message, payload_type}
use mindconnect_lib.Multipart.Step.{filled, add_line, append_at}

-- What `multipart_get_tuple_size` leaves out: the type that stands for a missing one.
abbrev pub not_counted : CString → ℕ
not_counted none = length (payload_type none)
not_counted (some type) = 0

type-length :
    (type : CString) → mcl_string_util_strlen type + not_counted type ≡ length (payload_type type)
unfolding mcl_string_util_strlen string_util_strlen
type-length none = refl
type-length (some type) = omega arith

message-length :
    (boundary sub_boundary meta : List ℕ) (type : CString) (payload : List ℕ)
    → length (message boundary sub_boundary meta type payload)
      ≡ 147
        + length boundary
        + 4 * length sub_boundary
        + length meta
        + length (payload_type type)
        + length payload
unfolding message
message-length boundary sub_boundary meta type payload = simp length-append (omega arith)

-- Where json.c reckons the sizes of the meta and the payload right, `multipart_get_tuple_size` is the
-- length of the message that is written, less the 16 characters of `application/json` where no
-- content type is given.
pub multipart_get_tuple_size-message :
    (boundary sub_boundary meta payload : List ℕ) (item : Item) (type : CString)
    → length boundary ≡ 20
    → length sub_boundary ≡ 20
    → item.size ≡ length meta + length payload
    → multipart_get_tuple_size item type + not_counted type
      ≡ length (message boundary sub_boundary meta type payload)
unfolding multipart_get_tuple_size
multipart_get_tuple_size-message boundary sub_boundary meta payload item type b s size =
    omega
      (arith, b, s, size, type-length type, message-length boundary sub_boundary meta type payload)

-- Where there is room for the overhead, `multipart_close` writes the closing line of the boundary at
-- the start of the buffer, keeps the rest of it and takes the overhead off `*buffer_size`.
pub multipart_close-overhead :
    (buffer boundary : List ℕ)
    → length boundary ≡ 20
    → multipart_get_overhead_size ≤ length buffer
    → multipart_close buffer (length buffer) boundary ≡ record {
      code = ok tt;
      buffer =
          (boundary_sign ++ (boundary ++ boundary_sign)) ++ drop multipart_get_overhead_size buffer;
      buffer_size = length buffer - multipart_get_overhead_size;
    }
unfolding multipart_close multipart_get_overhead_size
multipart_close-overhead buffer boundary h room =
    let enough : leb 24 (length buffer) ≡ true = ground arith in
    let line : memcpy (memcpy (memcpy buffer 0 boundary_sign) 2 (take 20 boundary)) 22 boundary_sign
        ≡ filled [] buffer ((boundary_sign ++ boundary) ++ boundary_sign) =
      ap (λ b. memcpy b 22 boundary_sign) (add_line [] buffer boundary 2 refl h)
      ∙ append_at [] buffer (boundary_sign ++ boundary) boundary_sign 22 (omega arith) in
    let n : length ((boundary_sign ++ boundary) ++ boundary_sign) ≡ 24 =
      omega (arith, length-append boundary boundary_sign) in
    rw (enough, line)
      (ap
        (λ k. record {
          code = ok tt;
          buffer = (boundary_sign ++ (boundary ++ boundary_sign)) ++ drop k buffer;
          buffer_size = length buffer - 24;
        })
        n)

abbrev pub is_alphanumeric : ℕ → Bool
is_alphanumeric c = (leb 48 c && leb c 57) || (leb 65 c && leb c 90) || (leb 97 c && leb c 122)

abbrev every_alphanumeric : List ℕ → Bool
every_alphanumeric [] = true
every_alphanumeric (c ∷ text) = is_alphanumeric c && every_alphanumeric text

both : (a b : Bool) → (a && b) ≡ true → (a ≡ true) × (b ≡ true)
both true b h = (refl, h)
both false b h = absurd (cc)

every_alphanumeric-get_or :
    (text : List ℕ) (i : ℕ)
    → every_alphanumeric text ≡ true
    → i < length text
    → is_alphanumeric (get_or text i 0) ≡ true
every_alphanumeric-get_or [] i h at = absurd (omega arith)
every_alphanumeric-get_or (c ∷ text) zero h at =
    (both (is_alphanumeric c) (every_alphanumeric text) h).0
every_alphanumeric-get_or (c ∷ text) (suc i) h at =
    every_alphanumeric-get_or text i (both (is_alphanumeric c) (every_alphanumeric text) h).1
      (omega arith)

character_alphanumeric : (byte : ℕ) → is_alphanumeric (boundary_character byte) ≡ true
character_alphanumeric byte =
    every_alphanumeric-get_or boundary_characters (byte % 62) refl (omega arith)

map_character :
    (bytes : List ℕ)
    → (length (map boundary_character bytes) ≡ length bytes)
      × All (λ c. is_alphanumeric c ≡ true) (map boundary_character bytes)
map_character [] = (refl, tt)
map_character (byte ∷ bytes) =
    (ap suc (map_character bytes).0, (character_alphanumeric byte, (map_character bytes).1))

-- The boundary that `multipart_generate_boundary` makes has as many characters as random bytes, each
-- a digit or a letter, whatever the bytes are.
pub multipart_generate_boundary_alphanumeric :
    (bytes : List ℕ)
    → (boundary : List ℕ) × (multipart_generate_boundary true (ok bytes) ≡ ok boundary)
      × (length boundary ≡ length bytes)
      × All (λ c. is_alphanumeric c ≡ true) boundary
unfolding multipart_generate_boundary
multipart_generate_boundary_alphanumeric bytes =
    (map boundary_character bytes, refl, (map_character bytes).0, (map_character bytes).1)
