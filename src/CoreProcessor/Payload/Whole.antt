-- ===== src/CoreProcessor/Payload/Whole.antt =====
-- The body of a key rotation with a shared secret in mcl_core/src/core_processor.c is printed whole.
use mindconnect_lib.Base.{
  ℕ, ◌+◌, ◌<◌, ◌^◌, ◌≡◌, refl, true, some, List, length, length-append, arith,
}
use mindconnect_lib.Base.Bits.{u32}
use mindconnect_lib.Base.Text.{literal}
use mindconnect_lib.Base.Code.{ok}
use mindconnect_lib.Base.Action.{Memory}
use mindconnect_lib.StringUtil.{string_util_strlen}
use mindconnect_lib.StringUtil.Copy.{print_formatted_string-whole}
use mindconnect_lib.Security.Handler.{SecurityHandler}
use mindconnect_lib.Security.Jwt.{shared_secret, Platform}
use mindconnect_lib.Security.Random.{printed_text}
use mindconnect_lib.CoreProcessor.Environment.{CoreProcessor}
use mindconnect_lib.CoreProcessor.Payload.{client_id_text, rotation_payload}

module _ {World Double Int : Type 0} (platform : Platform World Double Int) where
  -- With memory for it and a client id that is not as long as 4 GiB, the body is the whole document with the
  -- client id in it.
  pub rotation_payload_whole :
      (h : SecurityHandler) (client_id : List ℕ) (c : CoreProcessor World)
      → SecurityHandler.client_id h ≡ some client_id
      → length client_id + 17 < 2 ^ 32
      → (Memory.allocate (Platform.memory platform) (CoreProcessor.world c)).0 ≡ true
      → (rotation_payload platform shared_secret h c).0 ≡ ok (client_id_text client_id)
  unfolding rotation_payload printed_text string_util_strlen
  rotation_payload_whole h client_id c e short enough =
      let text : length (client_id_text client_id) ≡ 16 + length client_id =
        omega (arith, length-append client_id (literal "\"}")) in
      let size : u32 (16 + length client_id + 1) ≡ length client_id + 17 = omega arith in
      rw
        (
          e,
          enough,
          size,
          print_formatted_string-whole (length client_id + 17) (client_id_text client_id)
              (omega (arith, text)) (omega (arith, text)),
        )
        refl
