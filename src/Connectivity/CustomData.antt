-- ===== src/Connectivity/CustomData.antt =====
-- Custom data in mcl_connectivity/src/connectivity_processor.c: its payload is copied into a message by
-- a callback that remembers how far it has come.
pub mod Copied
use mindconnect_lib.Base.{
  ℕ, zero, suc, ◌<◌, ◌≤◌, ◌+◌, ◌-◌, ◌≡◌, refl, sym, ap, ◌∙◌, Bool, true, false, Bool-cases, not,
  ◌&&◌, ◌==◌, some, Option, List, [], ◌∷◌, ◌++◌, length, length-append, length-take, take, drop,
  arith, ltb, if◌then◌else◌, inl, inr,
}
use mathlib.Core.Path.{subst}
use mindconnect_lib.Base.Code.{Result, ok, err}
use mindconnect_lib.Exchange.Store.{size_sub}
use mindconnect_lib.LinkedList.{size_max}
use mindconnect_lib.Multipart.Copy.{Item, PayloadCallback, Progress}
use mindconnect_lib.Multipart.Tuple.{
  Written, add_item_payload, multipart_add_tuple_with_callback, multipart_get_tuple_size,
}
use mindconnect_lib.Multipart.Step.{At}
use mindconnect_lib.Multipart.Payload.{served, add_item_payload-served}

-- What the exchange reads of custom data: what json.c prints of it, and the members of its payload.
pub record CustomData : Type 0 where
  pub item : Item
  pub content_type : List ℕ
  pub buffer : List ℕ
  pub size : ℕ

unfoldable pub write_size_of : CustomData → ℕ → ℕ → ℕ
write_size_of custom_data offset room =
    let remaining_size = size_sub (CustomData.size custom_data) offset in
    if ltb remaining_size room then remaining_size else room

-- The context is the offset; `room` is `size * count`.
unfoldable pub custom_data_payload_callback : CustomData → PayloadCallback ℕ
custom_data_payload_callback custom_data offset room =
    let write_size = write_size_of custom_data offset room in
    (take write_size (drop offset (CustomData.buffer custom_data)), offset + write_size)

-- A buffer of `buffer_size` bytes, and the sub boundary that is generated for the item.
unfoldable pub add_custom_data_to_buffer :
    List ℕ → ℕ → CustomData → List ℕ → Result (List ℕ) → Option Written
add_custom_data_to_buffer buffer buffer_size custom_data boundary sub_boundary =
    multipart_add_tuple_with_callback buffer buffer_size (CustomData.item custom_data) boundary
      (some (CustomData.content_type custom_data)) (some (custom_data_payload_callback custom_data))
      0 sub_boundary

unfoldable pub custom_data_size : CustomData → ℕ
custom_data_size custom_data =
    multipart_get_tuple_size (CustomData.item custom_data)
      (some (CustomData.content_type custom_data))
