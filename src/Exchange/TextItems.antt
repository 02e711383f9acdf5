-- ===== src/Exchange/TextItems.antt =====
-- The items of a store that json.c prints (timeseries, events and data source configurations):
-- `_get_item_size` and `_add_item_to_buffer` of connectivity_processor.c call multipart.c for them.
use mindconnect_lib.Base.{
  ℕ, zero, suc, ◌<◌, ◌≤◌, ◌+◌, ◌-◌, ◌≡◌, refl, sym, ap, List, [], ◌∷◌, ◌++◌, Option, none, some,
  length, take, take-append, drop, arith,
}
use mathlib.Core.Path.{subst}
use mindconnect_lib.Base.Code.{Result, ok, err, fail}
use mindconnect_lib.Multipart.States.{content_type_application_json}
use mindconnect_lib.Multipart.Copy.{Item}
use mindconnect_lib.Multipart.Tuple.{Written, multipart_add_tuple, multipart_get_tuple_size}
use mindconnect_lib.Multipart.Message.{message}
use mindconnect_lib.Multipart.Compose.{
  multipart_add_tuple_with_callback-message, multipart_add_tuple_with_callback-fail,
}
use mindconnect_lib.Multipart.Size.{multipart_get_tuple_size-message}
use mindconnect_lib.Exchange.Store.{Composer}
use mindconnect_lib.Exchange.Body.{Exact}

-- An item with the texts that json.c prints for it, the size that json.c reckons for both of them by
-- itself, and the sub boundary of 20 characters that is generated when it is added. The size takes no
-- notice of escapes in the texts, so that it need not be their length.
pub record TextItem : Type 0 where
  pub meta : List ℕ
  pub payload : List ℕ
  pub size : ℕ
  pub sub_boundary : List ℕ
  pub sub_boundary_fits : length sub_boundary ≡ 20

unfoldable pub printed : TextItem → Item
printed i = record {
  meta = ok (TextItem.meta i);
  payload = ok (TextItem.payload i);
  size = TextItem.size i;
}

-- A buffer as `MCL_MALLOC` may give it: what it holds does not matter.
abbrev pub blank : ℕ → List ℕ
blank zero = []
blank (suc n) = 0 ∷ blank n

blank-length : (n : ℕ) → length (blank n) ≡ n
blank-length zero = refl
blank-length (suc n) = ap suc (blank-length n)

-- The bytes that a call has written into a room.
abbrev pub bytes_of : ℕ → Option Written → Result (List ℕ)
bytes_of room none = err fail
bytes_of room (some w) = code_and_bytes room (Written.code w) w
  where
    code_and_bytes : ℕ → Result (Unit {0}) → Written → Result (List ℕ)
    code_and_bytes room (ok _) w = ok (take (room - Written.buffer_size w) (Written.buffer w))
    code_and_bytes room (err code) w = err code

unfoldable pub get_item_size : TextItem → ℕ
get_item_size i = multipart_get_tuple_size (printed i) (some content_type_application_json)

unfoldable pub add_item_to_buffer : List ℕ → TextItem → ℕ → Result (List ℕ)
add_item_to_buffer boundary i room =
    bytes_of room
      (multipart_add_tuple (blank room) room (printed i) boundary (ok (TextItem.sub_boundary i)))

abbrev pub text_composer : Composer TextItem
text_composer = record { get_item_size = get_item_size; add_item_to_buffer = add_item_to_buffer }

-- What a message holds for the item.
abbrev pub text_message : List ℕ → TextItem → List ℕ
text_message boundary i =
    message boundary (TextItem.sub_boundary i) (TextItem.meta i) none (TextItem.payload i)

module _ (boundary : List ℕ) (boundary_fits : length boundary ≡ 20) (i : TextItem) where
  same_type :
      message boundary
        (TextItem.sub_boundary i)
        (TextItem.meta i)
        (some content_type_application_json)
        (TextItem.payload i)
      ≡ text_message boundary i
  unfolding message
  same_type = refl

  -- `_get_item_size` is wrong by as much as json.c is.
  pub get_item_size-message :
      get_item_size i + (length (TextItem.meta i) + length (TextItem.payload i))
      ≡ length (text_message boundary i) + TextItem.size i
  unfolding get_item_size printed multipart_get_tuple_size
  get_item_size-message = omega (
    arith,
    multipart_get_tuple_size-message boundary (TextItem.sub_boundary i) (TextItem.meta i)
        (TextItem.payload i)
        (record (printed i) { size = length (TextItem.meta i) + length (TextItem.payload i) })
        (some content_type_application_json) boundary_fits (TextItem.sub_boundary_fits i) refl,
    ap (λ (l : List ℕ). length l) same_type,
  )

  multipart_add_tuple-message :
      (room : ℕ)
      → length (text_message boundary i) ≤ room
      → multipart_add_tuple (blank room) room (printed i) boundary (ok (TextItem.sub_boundary i))
        ≡ some (record {
          code = ok tt;
          buffer = text_message boundary i ++ drop (length (text_message boundary i)) (blank room);
          buffer_size = room - length (text_message boundary i);
        })
  unfolding multipart_add_tuple printed
  multipart_add_tuple-message room fits =
      subst
        (λ n.
          multipart_add_tuple (blank room) n (printed i) boundary (ok (TextItem.sub_boundary i))
          ≡ some (record {
            code = ok tt;
            buffer =
                text_message boundary i ++ drop (length (text_message boundary i)) (blank room);
            buffer_size = n - length (text_message boundary i);
          }))
        (blank-length room)
        (multipart_add_tuple_with_callback-message boundary (TextItem.sub_boundary i)
          (TextItem.meta i) none (TextItem.payload i) (blank room) (TextItem.size i) boundary_fits
          (TextItem.sub_boundary_fits i) (omega (arith, fits, blank-length room)))

  multipart_add_tuple-fail :
      (room : ℕ)
      → room < length (text_message boundary i)
      → (buffer : List ℕ) × (multipart_add_tuple
            (blank room)
            room
            (printed i)
            boundary
            (ok (TextItem.sub_boundary i))
          ≡ some (record { code = err fail; buffer = buffer; buffer_size = room }))
  unfolding multipart_add_tuple printed
  multipart_add_tuple-fail room short =
      subst
        (λ n.
          (buffer : List ℕ) × (multipart_add_tuple (blank room) n (printed i) boundary
              (ok (TextItem.sub_boundary i))
            ≡ some (record { code = err fail; buffer = buffer; buffer_size = n })))
        (blank-length room)
        (multipart_add_tuple_with_callback-fail boundary (TextItem.sub_boundary i) (TextItem.meta i)
          none (TextItem.payload i) (blank room) (TextItem.size i) boundary_fits
          (TextItem.sub_boundary_fits i) (omega (arith, short, blank-length room)))

  -- Whatever json.c reckons, the message is written where it fits, and else the code is `MCL_FAIL`.
  pub add_item_to_buffer_whole :
      (room : ℕ)
      → length (text_message boundary i) ≤ room
      → add_item_to_buffer boundary i room ≡ ok (text_message boundary i)
  unfolding add_item_to_buffer
  add_item_to_buffer_whole room fits =
      let size : ℕ = length (text_message boundary i) in
      let left : room - (room - size) ≡ size = omega arith in
      rw (multipart_add_tuple-message room fits, left)
        (ap ok (take-append (text_message boundary i) (drop size (blank room))))

  pub add_item_to_buffer_short :
      (room : ℕ)
      → room < length (text_message boundary i)
      → add_item_to_buffer boundary i room ≡ err fail
  unfolding add_item_to_buffer
  add_item_to_buffer_short room short = rw ((multipart_add_tuple-fail room short).1) refl

  -- Where json.c reckons as many characters as it prints for an item, and the boundary has 20
  -- characters, `_get_item_size` is the length of the message for the item, and `_add_item_to_buffer`
  -- writes exactly that message into any room of this size or more.
  pub add_item_to_buffer_exact :
      (room : ℕ)
      → TextItem.size i ≡ length (TextItem.meta i) + length (TextItem.payload i)
      → get_item_size i ≤ room
      → (add_item_to_buffer boundary i room ≡ ok (text_message boundary i))
        × (length (text_message boundary i) ≡ get_item_size i)
  add_item_to_buffer_exact room right fits =
      let e : get_item_size i ≡ length (text_message boundary i) =
        omega (arith, get_item_size-message, right) in
      (add_item_to_buffer_whole room (omega (arith, e)), sym e)

-- An item whose size json.c reckons right.
pub record ReckonedItem : Type 0 where
  pub text : TextItem
  pub right : TextItem.size text ≡ length (TextItem.meta text) + length (TextItem.payload text)

abbrev pub reckoned_composer : Composer ReckonedItem
reckoned_composer = record {
  get_item_size = λ i. get_item_size (ReckonedItem.text i);
  add_item_to_buffer = λ boundary i. add_item_to_buffer boundary (ReckonedItem.text i);
}

pub reckoned_composer-Exact : Exact reckoned_composer
reckoned_composer-Exact = record {
  written = λ boundary i room h fits.
      let exact =
        add_item_to_buffer_exact boundary h (ReckonedItem.text i) room (ReckonedItem.right i)
          fits in
      (text_message boundary (ReckonedItem.text i), exact.0, exact.1);
}
