-- ===== src/Multipart/Tests.antt =====
-- Runs of multipart.c, and its theorems at concrete inputs.
use mindconnect_lib.Base.{
  ◌≡◌, ◌≤◌, ◌+◌, ◌-◌, refl, List, [], ◌∷◌, ◌++◌, ℕ, zero, suc, none, some, arith, length, take,
  drop, false, true, All, if◌then◌else◌, not, ◌&&◌, ◌==◌, length-take,
}
use Prim.Native.Nat.{min}
use mindconnect_lib.Base.Text.{literal}
use mindconnect_lib.Base.Code.{ok, err, fail, out_of_memory}
use mindconnect_lib.Multipart.States.{boundary_sign}
use mindconnect_lib.Multipart.Copy.{Item, PayloadCallback, Progress}
use mindconnect_lib.Multipart.Tuple.{
  multipart_add_tuple_with_callback, multipart_get_tuple_size, multipart_close,
  multipart_get_overhead_size, multipart_generate_boundary, add_item_payload,
}
use mindconnect_lib.Multipart.Message.{message}
use mindconnect_lib.Multipart.Compose.{
  multipart_add_tuple_with_callback-message, multipart_add_tuple_with_callback-fail,
}
use mindconnect_lib.Multipart.Size.{
  not_counted, is_alphanumeric, multipart_get_tuple_size-message, multipart_close-overhead,
  multipart_generate_boundary_alphanumeric,
}
use mindconnect_lib.Multipart.Payload.{served, add_item_payload-served}

abbrev main_boundary : List ℕ
main_boundary = literal "12345678901234567890"

abbrev inner_boundary : List ℕ
inner_boundary = literal "abcdefghijklmnopqrst"

abbrev zeros : ℕ → List ℕ
zeros zero = []
zeros (suc n) = 0 ∷ zeros n

abbrev item : Item
item = record { meta = ok (literal "{}"); payload = ok (literal "[1]"); size = 5 }

abbrev text : List ℕ
text = message main_boundary inner_boundary (literal "{}") none (literal "[1]")

text-length : length text ≡ 268
unfolding message
text-length = refl

multipart_add_tuple_with_callback-message_example :
    multipart_add_tuple_with_callback
      (zeros 270)
      270
      item
      main_boundary
      none
      none
      tt
      (ok inner_boundary)
    ≡ some (record {
      code = ok tt;
      buffer = text ++ drop (length text) (zeros 270);
      buffer_size = length (zeros 270) - length text;
    })
multipart_add_tuple_with_callback-message_example =
    multipart_add_tuple_with_callback-message main_boundary inner_boundary (literal "{}") none
      (literal "[1]") (zeros 270) 5 refl refl (omega (arith, text-length))

multipart_add_tuple_with_callback-fail_example :
    (buffer' : List ℕ) × (multipart_add_tuple_with_callback
        (zeros 267)
        267
        item
        main_boundary
        none
        none
        tt
        (ok inner_boundary)
      ≡ some (record { code = err fail; buffer = buffer'; buffer_size = 267 }))
multipart_add_tuple_with_callback-fail_example =
    multipart_add_tuple_with_callback-fail main_boundary inner_boundary (literal "{}") none
      (literal "[1]") (zeros 267) 5 refl refl (omega (arith, text-length))

multipart_get_tuple_size-message_example :
    multipart_get_tuple_size item none + not_counted none ≡ length text
multipart_get_tuple_size-message_example =
    multipart_get_tuple_size-message main_boundary inner_boundary (literal "{}") (literal "[1]")
      item none refl refl refl

overhead_fits : multipart_get_overhead_size ≤ length (zeros 30)
unfolding multipart_get_overhead_size
overhead_fits = omega arith

multipart_close-overhead_example : multipart_close (zeros 30) 30 main_boundary ≡ record {
  code = ok tt;
  buffer =
      (boundary_sign ++ (main_boundary ++ boundary_sign))
      ++ drop multipart_get_overhead_size (zeros 30);
  buffer_size = length (zeros 30) - multipart_get_overhead_size;
}
multipart_close-overhead_example =
    multipart_close-overhead (zeros 30) main_boundary refl overhead_fits

multipart_generate_boundary_alphanumeric_example :
    (boundary : List ℕ) × (multipart_generate_boundary true (ok (0 ∷ 255 ∷ 61 ∷ [])) ≡ ok boundary)
    × (length boundary ≡ 3)
    × All (λ c. is_alphanumeric c ≡ true) boundary
multipart_generate_boundary_alphanumeric_example =
    multipart_generate_boundary_alphanumeric (0 ∷ 255 ∷ 61 ∷ [])

no_memory_for_boundary : multipart_generate_boundary false (ok []) ≡ err out_of_memory
unfolding multipart_generate_boundary
no_memory_for_boundary = refl

-- A callback that copies from a text, two characters at a time.
abbrev two_by_two : PayloadCallback (List ℕ)
two_by_two context room = (take (min 2 room) context, drop (min 2 room) context)

two_by_two-bounded : (context : List ℕ) (room : ℕ) → length (two_by_two context room).0 ≤ room
two_by_two-bounded context room = omega (arith, length-take (min 2 room) context)

abbrev empty_buffer : Progress
empty_buffer = record { code = ok tt; buffer = zeros 8; position = 0; remaining_size = 8 }

-- "hello" in a buffer of 8 characters.
served_hello : served two_by_two 9 (literal "hello") 8 ≡ (literal "hello", 0)
served_hello = refl

add_item_payload-served_example :
    (q : Progress) × (add_item_payload item (some two_by_two) (literal "hello") empty_buffer
      ≡ some q)
    × (q.buffer
        ≡ ([] ++ (served two_by_two 9 (literal "hello") 8).0)
          ++ drop (length (served two_by_two 9 (literal "hello") 8).0) (zeros 8))
    × (q.position ≡ length {A = ℕ} [] + length (served two_by_two 9 (literal "hello") 8).0)
    × (q.code ≡ (
        if (0 == q.remaining_size) && not (0 == (served two_by_two 9 (literal "hello") 8).1)
        then err fail
        else ok tt))
add_item_payload-served_example =
    add_item_payload-served two_by_two item (literal "hello") [] (zeros 8) empty_buffer
      two_by_two-bounded (record { code = refl; buffer = refl; position = refl; room = refl })
