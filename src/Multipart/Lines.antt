-- ===== src/Multipart/Lines.antt =====
-- The lengths of the boundary lines of multipart.c, and what a round adds to the position.
use mindconnect_lib.Base.{
  ℕ, ◌+◌, ◌-◌, ◌≡◌, refl, ap, none, some, List, ◌++◌, length, length-append, drop, arith,
}
use mindconnect_lib.StringUtil.{CString}
use mindconnect_lib.Multipart.States.{boundary_sign, State, space_needed_for_state}
use mindconnect_lib.Multipart.Copy.{Progress, add_text, add_item_payload_content_type, advance}
use mindconnect_lib.Multipart.Message.{open_line, close_line, line_end, payload_type}
use mindconnect_lib.Multipart.Step.{At, At-moved}

pub open_line-length : (boundary : List ℕ) → length boundary ≡ 20 → 24 ≡ length (open_line boundary)
open_line-length boundary h = omega (arith, length-append boundary line_end)

pub close_line-length :
    (boundary : List ℕ) → length boundary ≡ 20 → 26 ≡ length (close_line boundary)
close_line-length boundary h = omega (arith, length-append boundary (boundary_sign ++ line_end))

pub content_type-add_text :
    (type : CString) (p : Progress)
    → add_item_payload_content_type type p ≡ add_text (payload_type type) p
unfolding add_item_payload_content_type
content_type-add_text none p = refl
content_type-add_text (some text) p = refl

pub advance-moved :
    (text tail source buffer : List ℕ) (p : Progress) (state : State)
    → At text tail p
    → space_needed_for_state state ≡ length source
    → buffer ≡ text ++ (source ++ drop (length source) tail)
    → At (text ++ source) (drop (length source) tail) (advance state (record p { buffer = buffer }))
unfolding advance
advance-moved text tail source buffer p state at space written =
    At-moved text tail source p (advance state (record p { buffer = buffer })) at refl written
      (ap (λ n. p.position + n) space) (ap (λ n. p.remaining_size - n) space)

pub advance-still :
    (text tail : List ℕ) (p : Progress) (state : State)
    → At text tail p
    → space_needed_for_state state ≡ 0
    → At text tail (advance state p)
unfolding advance
advance-still text tail p state at space = record {
  code = at.code;
  buffer = at.buffer;
  position = omega (arith, at.position, space);
  room = omega (arith, at.room, space);
}
