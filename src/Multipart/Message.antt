-- ===== src/Multipart/Message.antt =====
-- The text of one tuple as RFC 2046 lays it out, and the parts that the states of multipart.c
-- contribute to it.
use mindconnect_lib.Base.{
  ℕ, zero, suc, ◌<◌, ◌≡◌, refl, false, none, some, List, [], ◌∷◌, ◌++◌, length, length-append,
  arith,
}
use mindconnect_lib.StringUtil.{CString}
use mindconnect_lib.Multipart.States.{
  boundary_sign, content_type, boundary_key, endline, content_type_multipart_related,
  content_type_meta_json, content_type_application_json, State, open_main_boundary,
  content_type_key_for_multipart_related, content_type_value_multipart_related, state_boundary_key,
  boundary_value_sub_boundary, double_endline_first, open_sub_boundary_first,
  content_type_key_for_meta_json, content_type_value_meta_json, double_endline_second,
  item_meta_json, endline_first, open_sub_boundary_second, content_type_key_for_payload,
  content_type_value_payload, double_endline_third, item_payload, endline_second,
  close_sub_boundary, end, next,
}
use mindconnect_lib.Multipart.Copy.{is_end}

abbrev pub line_end : List ℕ
line_end = 13 ∷ 10 ∷ []

abbrev pub open_line : List ℕ → List ℕ
open_line boundary = boundary_sign ++ (boundary ++ line_end)

abbrev pub close_line : List ℕ → List ℕ
close_line boundary = boundary_sign ++ (boundary ++ (boundary_sign ++ line_end))

abbrev pub payload_type : CString → List ℕ
payload_type none = content_type_application_json
payload_type (some text) = text

-- The whole tuple, written out.
unfoldable pub message : List ℕ → List ℕ → List ℕ → CString → List ℕ → List ℕ
message boundary sub_boundary meta type payload =
    open_line boundary
    ++ (content_type
        ++ (content_type_multipart_related
            ++ (boundary_key
                ++ (sub_boundary
                    ++ (endline
                        ++ (open_line sub_boundary
                            ++ (content_type
                                ++ (content_type_meta_json
                                    ++ (endline
                                        ++ (meta
                                            ++ (line_end
                                                ++ (open_line sub_boundary
                                                    ++ (content_type
                                                        ++ (payload_type type
                                                            ++ (endline
                                                            ++ (payload
                                                            ++ (line_end
                                                            ++ (close_line sub_boundary
                                                            ++ []))))))))))))))))))

module _ (boundary sub_boundary meta : List ℕ) (type : CString) (payload : List ℕ) where
  unfoldable pub piece : State → List ℕ
  piece open_main_boundary = open_line boundary
  piece content_type_key_for_multipart_related = content_type
  piece content_type_value_multipart_related = content_type_multipart_related
  piece state_boundary_key = boundary_key
  piece boundary_value_sub_boundary = sub_boundary
  piece double_endline_first = endline
  piece open_sub_boundary_first = open_line sub_boundary
  piece content_type_key_for_meta_json = content_type
  piece content_type_value_meta_json = content_type_meta_json
  piece double_endline_second = endline
  piece item_meta_json = meta
  piece endline_first = line_end
  piece open_sub_boundary_second = open_line sub_boundary
  piece content_type_key_for_payload = content_type
  piece content_type_value_payload = payload_type type
  piece double_endline_third = endline
  piece item_payload = payload
  piece endline_second = line_end
  piece close_sub_boundary = close_line sub_boundary
  piece end = []

  -- What `n` states write, from a state on.
  abbrev pub pieces : ℕ → State → List ℕ
  pieces zero state = []
  pieces (suc n) state = piece state ++ pieces n (next state)

  -- `n` states are left before the end, and each of them still has something to write.
  unfoldable pub Left : ℕ → State → Type 0
  Left zero state = state ≡ end
  Left (suc n) state =
      (is_end state ≡ false) × (0 < length (pieces (suc n) state)) × Left n (next state)

  more-Left :
      (n : ℕ) (state : State)
      → is_end state ≡ false
      → Left (suc n) (next state)
      → Left (suc (suc n)) state
  unfolding Left
  more-Left n state h l =
      (h, omega (arith, length-append (piece state) (pieces (suc n) (next state)), l.1), l)

  last-Left : Left 1 close_sub_boundary
  unfolding Left is_end next piece
  last-Left = (refl, omega arith, refl)

  pub all-Left : Left 19 open_main_boundary
  unfolding is_end next
  all-Left = more-Left 17 open_main_boundary refl (
      more-Left 16 content_type_key_for_multipart_related refl (
        more-Left 15 content_type_value_multipart_related refl (
          more-Left 14 state_boundary_key refl (
            more-Left 13 boundary_value_sub_boundary refl (
              more-Left 12 double_endline_first refl (
                more-Left 11 open_sub_boundary_first refl (
                  more-Left 10 content_type_key_for_meta_json refl (
                    more-Left 9 content_type_value_meta_json refl (
                      more-Left 8 double_endline_second refl (
                        more-Left 7 item_meta_json refl (
                          more-Left 6 endline_first refl (
                            more-Left 5 open_sub_boundary_second refl (
                              more-Left 4 content_type_key_for_payload refl (
                                more-Left 3 content_type_value_payload refl (
                                  more-Left 2 double_endline_third refl (
                                    more-Left 1 item_payload refl
                                      (more-Left 0 endline_second refl (last-Left))))))))))))))))))

  pub pieces_all : pieces 19 open_main_boundary ≡ message boundary sub_boundary meta type payload
  unfolding piece next message
  pieces_all = refl
