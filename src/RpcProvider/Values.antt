-- ===== src/RpcProvider/Values.antt =====
-- include/rpc_provider.hpp: types and values, exceptions, and the conversion of JSON to a value.
use tcp_test.Common.{
  ℕ, ◌+◌, Bool, true, false, Option, none, some, ◌==◌, if◌then◌else◌, Result, ok, err,
}
use tcp_test.Common.Text.{Text}

-- The types that the code compares by `std::type_info`; others by a number.
pub data TypeInfo : Type 0 where
  int_type long_type float_type double_type bool_type string_type ints_type strings_type void_type :
      TypeInfo
  other_type : ℕ → TypeInfo

abbrev type_code : TypeInfo → ℕ
type_code int_type = 0
type_code long_type = 1
type_code float_type = 2
type_code double_type = 3
type_code bool_type = 4
type_code string_type = 5
type_code ints_type = 6
type_code strings_type = 7
type_code void_type = 8
type_code (other_type n) = 9 + n

unfoldable pub same_type : TypeInfo → TypeInfo → Bool
same_type t u = type_code t == type_code u

pub data ErrorType : Type 0 where
  function_not_found type_mismatch argument_error timeout_error : ErrorType

-- What a message says.
pub data Message : Type 0 where
  names_count_mismatch arguments_count_mismatch unsupported_conversion bad_cast : Message
  unsupported_type : TypeInfo → Message
  not_found missing_argument conversion_error timed_out : Text → Message
  return_type_mismatch : TypeInfo → TypeInfo → Message

-- The exceptions: `RpcException`, nlohmann's, `std::bad_any_cast`, and those that functions throw.
-- `out_of_range` stands for reading behind the end of a vector, which is undefined.
pub data Exception : Type 0 where
  rpc_exception : ErrorType → Message → Exception
  json_exception bad_any_cast out_of_range : Exception
  function_exception : ℕ → Exception

-- What the code uses of nlohmann::json, and the C++ values that it gets: `contains`, `operator[]` and
-- `get<T>`, which may throw.
pub record JsonLibrary : Type 1 where
  pub Json : Type 0
  pub Value : Type 0
  pub contains : Json → Text → Bool
  pub at : Json → Text → Json
  pub get : TypeInfo → Json → Option Value

-- `std::any`
pub record Any (V : Type 0) : Type 0 where
  pub type : TypeInfo
  pub value : Option V

abbrev pub make_any : {V : Type 0} → TypeInfo → V → Any V
make_any type value = record { type = type; value = some value }

abbrev pub empty_any : {V : Type 0} → Any V
empty_any = record { type = void_type; value = none }

unfoldable pub any_cast : {V : Type 0} → TypeInfo → Any V → Result Exception V
any_cast type a = elim a.value [
  | none ↦ err bad_any_cast
  | some value ↦ if same_type a.type type then ok value else err bad_any_cast
]

abbrev pub is_supported : TypeInfo → Bool
is_supported void_type = false
is_supported (other_type n) = false
is_supported int_type = true
is_supported long_type = true
is_supported float_type = true
is_supported double_type = true
is_supported bool_type = true
is_supported string_type = true
is_supported ints_type = true
is_supported strings_type = true

-- `json_to_any<T>`, with the types of its `if constexpr`.
unfoldable pub json_to_any : (L : JsonLibrary) → TypeInfo → L.Json → Result Exception (Any L.Value)
json_to_any L type j =
    let converted : Result Exception (Any L.Value) = elim (L.get type j) [
      | none ↦ err json_exception
      | some value ↦ ok (make_any type value)
    ] in
    if is_supported type
    then converted
    else err (rpc_exception type_mismatch unsupported_conversion)

unfoldable pub convert_json_to_any :
    (L : JsonLibrary) → L.Json → TypeInfo → Result Exception (Any L.Value)
convert_json_to_any L j int_type = json_to_any L int_type j
convert_json_to_any L j long_type = json_to_any L long_type j
convert_json_to_any L j float_type = json_to_any L float_type j
convert_json_to_any L j double_type = json_to_any L double_type j
convert_json_to_any L j bool_type = json_to_any L bool_type j
convert_json_to_any L j string_type = json_to_any L string_type j
convert_json_to_any L j ints_type = json_to_any L ints_type j
convert_json_to_any L j strings_type = json_to_any L strings_type j
convert_json_to_any L j void_type = err (rpc_exception type_mismatch (unsupported_type void_type))
convert_json_to_any L j (other_type n) =
    err (rpc_exception type_mismatch (unsupported_type (other_type n)))
