-- ===== src/RpcProvider.antt =====
-- include/rpc_provider.hpp, class RpcProvider: functions under a name, with the names and types of their
-- parameters, called with a JSON object of arguments. The JSON library and the C++ values are an
-- interface; a registered function is given its arguments' values and takes some milliseconds. An
-- exception is an error result.
mod Values
pub mod Splitting
pub mod Arguments
pub mod Calls
pub mod Typed
mod Tests
use tcp_test.Common.{
  ℕ, zero, suc, ◌+◌, Bool, true, false, not, Option, none, some, List, [], ◌∷◌, ◌++◌, length, ltb,
  ◌==◌, if◌then◌else◌, get_elem?, Result, ok, err, ◌>>=◌,
}
use tcp_test.Common.Text.{Text, lookup, store}
unfoldable pub use Values.*

-- How a call of a function ends, and after how many milliseconds.
pub record Ended (A : Type 0) : Type 0 where
  pub elapsed : ℕ
  pub outcome : Result Exception A

pub record FunctionInfo (V : Type 0) : Type 0 where
  pub return_type : TypeInfo
  pub param_types : List TypeInfo
  pub param_names : List Text
  pub func : List (Any V) → Ended (Any V)
  pub timeout : ℕ

abbrev pub RpcProvider : Type 0 → Type 0
RpcProvider V = List (Text × FunctionInfo V)

-- The argument list of `call_impl`.
unfoldable pub cast_all : {V : Type 0} → List TypeInfo → List (Any V) → Result Exception (List V)
cast_all [] args = ok []
cast_all (type ∷ types) [] = err out_of_range
cast_all (type ∷ types) (a ∷ args) =
    any_cast type a >>= λ value. cast_all types args >>= λ values. ok (value ∷ values)

-- The result of a function as an `any`; that of a void function is empty.
unfoldable pub return_any : {V : Type 0} → TypeInfo → V → Any V
return_any type value = if same_type type void_type then empty_any else make_any type value

abbrev pub map_outcome : {A B : Type 0} → (A → B) → Result Exception A → Result Exception B
map_outcome f (ok a) = ok (f a)
map_outcome f (err e) = err e

unfoldable pub call_impl :
    {V : Type 0} → TypeInfo → List TypeInfo → (List V → Ended V) → List (Any V) → Ended (Any V)
call_impl type types func args = elim (cast_all types args) [
  | err e ↦ record { elapsed = 0; outcome = err e }
  | ok values ↦ record {
    elapsed = (func values).elapsed;
    outcome = map_outcome (return_any type) (func values).outcome;
  }
]

-- The stored lambda.
unfoldable pub checked_call :
    {V : Type 0} → TypeInfo → List TypeInfo → (List V → Ended V) → List (Any V) → Ended (Any V)
checked_call type types func args =
    if length args == length types then call_impl type types func args else record {
      elapsed = 0;
      outcome = err (rpc_exception argument_error arguments_count_mismatch);
    }

unfoldable pub register_function :
    {V : Type 0}
    → RpcProvider V
    → Text
    → TypeInfo
    → List TypeInfo
    → (List V → Ended V)
    → List Text
    → ℕ
    → Result Exception (RpcProvider V)
register_function functions name type types func param_names timeout =
    if length param_names == length types
    then ok (
        store name
          (record {
            return_type = type;
            param_types = types;
            param_names = param_names;
            func = checked_call type types func;
            timeout = timeout;
          })
          functions)
    else err (rpc_exception argument_error names_count_mismatch)

unfoldable pub set_timeout : {V : Type 0} → RpcProvider V → Text → ℕ → RpcProvider V
set_timeout functions name timeout = elim (lookup name functions) [
  | none ↦ functions
  | some info ↦ store name (record info { timeout = timeout }) functions
]

-- The handler behind the conversion of an argument.
unfoldable pub catch_json : {A : Type 0} → Text → Result Exception A → Result Exception A
catch_json name (ok a) = ok a
catch_json name (err json_exception) = err (rpc_exception type_mismatch (conversion_error name))
catch_json name (err bad_any_cast) = err bad_any_cast
catch_json name (err out_of_range) = err out_of_range
catch_json name (err (rpc_exception type message)) = err (rpc_exception type message)
catch_json name (err (function_exception n)) = err (function_exception n)

-- The loop over the parameters, from the index `i` on.
unfoldable pub order_args :
    (L : JsonLibrary)
    → List TypeInfo
    → L.Json
    → List Text
    → ℕ
    → Result Exception (List (Any L.Value))
order_args L types named_args [] i = ok []
order_args L types named_args (name ∷ names) i =
    let rest = order_args L types named_args names (i + 1) in
    let converted : Result Exception (Any L.Value) = elim (get_elem? types i) [
      | none ↦ err out_of_range
      | some type ↦ catch_json name (convert_json_to_any L (L.at named_args name) type)
    ] in
    if L.contains named_args name
    then (converted >>= λ a. rest >>= λ args. ok (a ∷ args))
    else err (rpc_exception argument_error (missing_argument name))

-- The handler behind the call.
unfoldable pub catch_cast : {A : Type 0} → Result Exception A → Result Exception A
catch_cast (ok a) = ok a
catch_cast (err bad_any_cast) = err (rpc_exception type_mismatch bad_cast)
catch_cast (err json_exception) = err json_exception
catch_cast (err out_of_range) = err out_of_range
catch_cast (err (rpc_exception type message)) = err (rpc_exception type message)
catch_cast (err (function_exception n)) = err (function_exception n)

-- `future.get()`, and for another type than void the cast.
unfoldable pub get_result :
    {V : Type 0} → TypeInfo → Result Exception (Any V) → Result Exception (Option V)
get_result type outcome =
    if same_type type void_type
    then map_outcome (λ a. none) outcome
    else (outcome >>= λ a. any_cast type a >>= λ value. ok (some value))

-- The asynchronous call. The destructor of the future waits for the function, also where the timeout
-- is thrown.
unfoldable pub run_function :
    {V : Type 0} → Text → TypeInfo → FunctionInfo V → List (Any V) → Ended (Option V)
run_function name type info args =
    let run = info.func args in
    record {
      elapsed = run.elapsed;
      outcome = catch_cast (
          if ltb info.timeout run.elapsed
          then err (rpc_exception timeout_error (timed_out name))
          else get_result type run.outcome);
    }

abbrev pub at_once : {A : Type 0} → Exception → Ended A
at_once e = record { elapsed = 0; outcome = err e }

-- `call_function_named<Ret>`; the result of a void function is `none`.
unfoldable pub call_function_named :
    (L : JsonLibrary) → RpcProvider L.Value → TypeInfo → Text → L.Json → Ended (Option L.Value)
call_function_named L functions type name named_args = elim (lookup name functions) [
  | none ↦ at_once (rpc_exception function_not_found (not_found name))
  | some info ↦ elim (same_type info.return_type type) [
    | false ↦ at_once (rpc_exception type_mismatch (return_type_mismatch info.return_type type))
    | true ↦ elim (order_args L info.param_types named_args info.param_names 0) [
      | err e ↦ at_once e
      | ok args ↦ run_function name type info args
    ]
  ]
]
