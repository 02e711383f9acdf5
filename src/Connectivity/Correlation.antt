-- ===== src/Connectivity/Correlation.antt =====
-- `_generate_correlation_id_string` of mcl_connectivity/src/connectivity_processor.c: the random bytes
-- stand in the second half of the buffer that their digits are printed into.
use mindconnect_lib.Base.{
  ℕ, zero, suc, ◌+◌, ◌*◌, ◌≡◌, refl, sym, ap, ◌∙◌, List, [], ◌∷◌, ◌++◌, length, get_or, arith,
}
use mindconnect_lib.Base.Code.{Result, ok, err, ◌>>=◌}
use mindconnect_lib.StringUtil.{print_formatted_string}
use mindconnect_lib.Multipart.Copy.{memcpy}
use mindconnect_lib.Security.Random.{hex, printed_text}
use mindconnect_lib.CoreProcessor.Request.Composed.{hex_text}

abbrev pub correlation_id_byte_length : ℕ
correlation_id_byte_length = 16

-- With the terminator.
abbrev pub correlation_id_buffer_length : ℕ
correlation_id_buffer_length = 33

-- The round of the loop: two digits and a terminator, which covers the first of the bytes behind.
unfoldable pub print_byte : ℕ → List ℕ → Result (List ℕ)
print_byte index id =
    printed_text
      (print_formatted_string 3 (hex 2 (get_or id (index + correlation_id_byte_length) 0)))
    >>= λ digits. ok (memcpy id (index * 2) (digits ++ (0 ∷ [])))

-- `rounds` is how often the loop still runs.
unfoldable pub print_loop : ℕ → ℕ → List ℕ → Result (List ℕ)
print_loop zero index id = ok id
print_loop (suc rounds) index id = print_byte index id >>= print_loop rounds (index + 1)

-- The buffer, after the random bytes were written into its second half.
unfoldable pub correlation_id_string : List ℕ → Result (List ℕ) → Result (List ℕ)
correlation_id_string correlation_id (err code) = err code
correlation_id_string correlation_id (ok random_bytes) =
    print_loop correlation_id_byte_length 0
      (memcpy correlation_id correlation_id_byte_length random_bytes)

-- The members of a list, one by one.
abbrev members : ℕ → ℕ → (ℕ → ℕ) → List ℕ
members zero index member = []
members (suc count) index member = member index ∷ members count (index + 1) member

members_all :
    (count : ℕ) (index : ℕ) (xs : List ℕ) (member : ℕ → ℕ)
    → length xs ≡ count
    → ((i : ℕ) → get_or xs i 0 ≡ member (index + i))
    → xs ≡ members count index member
members_all zero index [] member h at = refl
members_all zero index (x ∷ xs) member h at = absurd (omega arith)
members_all (suc count) index [] member h at = absurd (omega arith)
members_all (suc count) index (x ∷ xs) member h at =
    ap (λ y. y ∷ xs) (at 0 ∙ ap member (omega arith))
    ∙ ap (λ ys. member index ∷ ys)
        (members_all count (index + 1) xs member (omega arith)
          (λ i. at (suc i) ∙ ap member (omega arith)))

printed_members :
    (buffer random_byte : ℕ → ℕ)
    → correlation_id_string (members 33 0 buffer) (ok (members 16 0 random_byte))
      ≡ ok (hex_text (members 16 0 random_byte) ++ (0 ∷ []))
unfolding correlation_id_string print_loop print_byte memcpy printed_text print_formatted_string
printed_members buffer random_byte = refl

-- Whatever a buffer of 33 characters held before, the loop reads each of the 16 random bytes before the
-- digits of another one cover it, and leaves the digits of all of them in their order, with the
-- terminator behind.
pub correlation_id_string-hex_text :
    (correlation_id random_bytes : List ℕ)
    → length correlation_id ≡ correlation_id_buffer_length
    → length random_bytes ≡ correlation_id_byte_length
    → correlation_id_string correlation_id (ok random_bytes)
      ≡ ok (hex_text random_bytes ++ (0 ∷ []))
correlation_id_string-hex_text correlation_id random_bytes h k =
    let buffer : ℕ → ℕ = λ i. get_or correlation_id i 0 in
    let random_byte : ℕ → ℕ = λ i. get_or random_bytes i 0 in
    let whole = members_all 33 0 correlation_id buffer h (λ i. ap buffer (omega arith)) in
    let second = members_all 16 0 random_bytes random_byte k (λ i. ap random_byte (omega arith)) in
    ap (λ c. correlation_id_string c (ok random_bytes)) whole
    ∙ (ap (λ r. correlation_id_string (members 33 0 buffer) (ok r)) second
        ∙ (printed_members buffer random_byte ∙ ap (λ r. ok (hex_text r ++ (0 ∷ []))) (sym second)))
