-- ===== src/Security/Samples.antt =====
-- A platform for the runs of mcl_core/src/jwt.c and mcl_core/src/core_processor.c: there is always memory,
-- random bytes count up, SHA-256 keeps the first byte, and a JSON node is a number whose string is that
-- number: 1 is an array, 2 an object, and 11 a parsed document, in which there is every name.
use mindconnect_lib.Base.{
  ℕ, true, none, some, List, [], ◌∷◌, get_or, length, ◌+◌, ◌==◌, if◌then◌else◌,
}
use mindconnect_lib.Base.Text.{literal}
use mindconnect_lib.Base.Code.{ok}
use mindconnect_lib.Base.Action.{Memory}
use mindconnect_lib.Json.Library.{array_node, object_node, string_node, CJson}
use mindconnect_lib.Security.Crypto.{Crypto}
use mindconnect_lib.Security.Jwt.{Platform}

abbrev pub World : Type 0
World = Unit {0}

abbrev pub memory : Memory World
memory = record { allocate = λ w. (true, w); list_answer = λ w. (ok tt, w) }

abbrev pub sample_hash : List ℕ → List ℕ
sample_hash data' =
    get_or data' 0 0
    ∷ 1
    ∷ 2
    ∷ 3
    ∷ 4
    ∷ 5
    ∷ 6
    ∷ 7
    ∷ 8
    ∷ 9
    ∷ 10
    ∷ 11
    ∷ 12
    ∷ 13
    ∷ 14
    ∷ 15
    ∷ 16
    ∷ 17
    ∷ 18
    ∷ 19
    ∷ 20
    ∷ 21
    ∷ 22
    ∷ 23
    ∷ 24
    ∷ 25
    ∷ 26
    ∷ 27
    ∷ 28
    ∷ 29
    ∷ 30
    ∷ 31
    ∷ []

abbrev pub sample_bytes : List ℕ
sample_bytes = 0 ∷ 1 ∷ 2 ∷ 3 ∷ 4 ∷ 5 ∷ 6 ∷ 7 ∷ 8 ∷ 9 ∷ 10 ∷ 11 ∷ 12 ∷ 13 ∷ 14 ∷ 15 ∷ []

abbrev pub crypto : Crypto World
crypto = record {
  security_hash_sha256 = λ data' w. (ok (sample_hash data'), w);
  security_generate_random_bytes = λ size w. (ok sample_bytes, w);
  security_generate_rsa_key = λ w. (ok (literal "new public", literal "new private"), w);
  security_rsa_sign = λ key data' w. (ok (7 ∷ []), w);
  security_rsa_get_modulus_and_exponent = λ key w. (ok (literal "n", literal "AQAB"), w);
}

abbrev pub cjson : CJson World (Unit {0}) (Unit {0})
cjson = record {
  type_of =
      λ node w. if node == 1 then array_node else if node == 2 then object_node else string_node;
  valuestring = λ node w. node ∷ [];
  valueint = λ node w. tt;
  valuedouble = λ node w. tt;
  child = λ node w. none;
  create_array = λ w. (some 1, w);
  create_object = λ w. (some 2, w);
  create_string = λ text w. (some 3, w);
  create_number = λ number w. (some 4, w);
  create_bool = λ value w. (some 5, w);
  create_null = λ w. (some 6, w);
  add_item_to_array = λ root item w. w;
  add_item_to_object = λ root name item w. w;
  add_string_to_object = λ root name text w. (some 7, w);
  add_number_to_object = λ root name number w. (some 8, w);
  add_bool_to_object = λ root name value w. (some 9, w);
  add_null_to_object = λ root name w. (some 10, w);
  get_object_item = λ root name w. if root == 11 then some (100 + length name) else none;
  get_array_item = λ root index w. some index;
  get_array_size = λ root w. 0;
  parse = λ text w. (some 11, w);
  parse_with_length = λ text size w. (some 11, w);
  print_unformatted = λ root w. (some (literal "{}"), w);
  duplicate = λ root recurse w. (some root, w);
  delete = λ root w. w;
}

abbrev pub platform : Platform World (Unit {0}) (Unit {0})
platform = record {
  cjson = cjson;
  memory = memory;
  crypto = crypto;
  now = λ w. (1500000000, w);
  to_double = λ n. tt;
}
