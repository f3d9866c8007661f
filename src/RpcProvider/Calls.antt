-- ===== src/RpcProvider/Calls.antt =====
-- A call of a registered function by its arguments' names, against a direct description.
use tcp_test.Common.{
  Result-cases, ℕ, ◌≡◌, refl, false, Option, none, some, List, [], length, ltb, ◌==◌, if◌then◌else◌,
  Result, ok, err, arith, Bool-cases, inl, inr, ==_of_eq, ◌⊎◌,
}
use tcp_test.Common.Text.{Text, lookup, store, lookup-store_self, lookup-store_ne, same_text}
use tcp_test.RpcProvider.{
  TypeInfo, void_type, same_type, Exception, rpc_exception, timeout_error, timed_out, JsonLibrary,
  any_cast, Ended, FunctionInfo, RpcProvider, return_any, map_outcome, call_impl, checked_call,
  register_function, order_args, catch_cast, get_result, run_function, at_once, call_function_named,
}
use tcp_test.RpcProvider.Arguments.{
  arguments, tag, same_type_refl, cast-tag, length-tag, length-arguments, order-arguments,
}

-- How the call of a registered function ends, once its arguments are there.
unfoldable pub expected : {V : Type 0} → Text → TypeInfo → ℕ → Ended V → Ended (Option V)
expected name type timeout run = record {
  elapsed = run.elapsed;
  outcome = catch_cast (
      if ltb timeout run.elapsed
      then err (rpc_exception timeout_error (timed_out name))
      else map_outcome (λ v. if same_type type void_type then none else some v) run.outcome);
}

get_result-return :
    {V : Type 0} (type : TypeInfo) (outcome : Result Exception V)
    → get_result type (map_outcome (return_any type) outcome)
      ≡ map_outcome (λ v. if same_type type void_type then none else some v) outcome
unfolding get_result return_any any_cast
get_result-return type (ok v) =
    ground (arith, same_type_refl type, Bool-cases (same_type type void_type))
get_result-return type (err x) = ground (arith, Bool-cases (same_type type void_type))

checked-tag :
    {V : Type 0} (type : TypeInfo) (types : List TypeInfo) (func : List V → Ended V)
    (values : List V)
    → length values ≡ length types
    → checked_call type types func (tag types values) ≡ record {
      elapsed = (func values).elapsed;
      outcome = map_outcome (return_any type) (func values).outcome;
    }
unfolding checked_call call_impl
checked-tag type types func values h =
    rw (==_of_eq (length-tag types values h), cast-tag types values h, call_impl) refl

run-registered :
    {V : Type 0} (name : Text) (type : TypeInfo) (types : List TypeInfo) (names : List Text)
    (func : List V → Ended V) (timeout : ℕ) (values : List V)
    → length values ≡ length types
    → run_function name type
        (record {
          return_type = type;
          param_types = types;
          param_names = names;
          func = checked_call type types func;
          timeout = timeout;
        })
        (tag types values)
      ≡ expected name type timeout (func values)
unfolding run_function expected
run-registered name type types names func timeout values h =
    rw
      (
        run_function,
        checked-tag type types func values h,
        get_result-return type (func values).outcome,
      )
      refl

-- `register_function` succeeds on as many names as parameters. Then a call by that name and its return
-- type takes the arguments by their names in the order of the parameters: the first that is missing or
-- cannot be converted is reported at once, and otherwise the function runs on the values. The call
-- lasts as long as the function, also where it ends in a timeout.
pub call_function_named-register :
    (L : JsonLibrary) (functions : RpcProvider L.Value) (name : Text) (type : TypeInfo)
    (types : List TypeInfo) (func : List L.Value → Ended L.Value) (names : List Text) (timeout : ℕ)
    (named_args : L.Json)
    → length names ≡ length types
    → (functions' : RpcProvider L.Value) × (register_function functions name type types func names
          timeout
        ≡ ok functions')
      × (call_function_named L functions' type name named_args
          ≡ (elim (arguments L named_args names types) [
            | err e ↦ at_once e
            | ok values ↦ expected name type timeout (func values)
          ]))
unfolding register_function call_function_named arguments
call_function_named-register L functions name type types func names timeout named_args h = (
  store name info functions,
  rw (==_of_eq h) refl,
  called (Result-cases (arguments L named_args names types)),
)
  where
    info : FunctionInfo L.Value
    info = record {
      return_type = type;
      param_types = types;
      param_names = names;
      func = checked_call type types func;
      timeout = timeout;
    }

    ordered :
        order_args L types named_args names 0
        ≡ map_outcome (tag types) (arguments L named_args names types)
    ordered = order-arguments L named_args names [] types 0 refl h

    called :
        ((values : List L.Value) × (arguments L named_args names types ≡ ok values))
          ⊎ ((e : Exception) × (arguments L named_args names types ≡ err e))
        → call_function_named L (store name info functions) type name named_args
          ≡ (elim (arguments L named_args names types) [
            | err e ↦ at_once e
            | ok values ↦ expected name type timeout (func values)
          ])
    called (inl (values, e)) =
        rw
          (
            call_function_named,
            lookup-store_self name info functions,
            same_type_refl type,
            ordered,
            e,
          )
          (run-registered name type types names func timeout values
            (length-arguments L named_args names types values h e))
    called (inr (x, e)) =
        rw
          (
            call_function_named,
            lookup-store_self name info functions,
            same_type_refl type,
            ordered,
            e,
          )
          refl

registered-lookup :
    {V : Type 0} (functions functions' : RpcProvider V) (name other : Text) (type : TypeInfo)
    (types : List TypeInfo) (func : List V → Ended V) (names : List Text) (timeout : ℕ)
    → register_function functions name type types func names timeout ≡ ok functions'
    → same_text name other ≡ false
    → lookup other functions' ≡ lookup other functions
unfolding register_function
registered-lookup functions functions' name other type types func names timeout e h =
    elim (Bool-cases (length names == length types)) [
      | inl counted ↦ ground (
        arith,
        counted,
        e,
        lookup-store_ne name other
            (record {
              return_type = type;
              param_types = types;
              param_names = names;
              func = checked_call type types func;
              timeout = timeout;
            })
            functions h,
      )
      | inr wrong ↦ absurd (ground (arith, wrong, e))
    ]

-- Registering a function leaves the calls of the others as they were.
pub call_function_named-other :
    (L : JsonLibrary) (functions functions' : RpcProvider L.Value) (name other : Text)
    (type type' : TypeInfo) (types : List TypeInfo) (func : List L.Value → Ended L.Value)
    (names : List Text) (timeout : ℕ) (named_args : L.Json)
    → register_function functions name type types func names timeout ≡ ok functions'
    → same_text name other ≡ false
    → call_function_named L functions' type' other named_args
      ≡ call_function_named L functions type' other named_args
unfolding register_function call_function_named
call_function_named-other L functions functions' name other type type' types func names timeout
      named_args e h =
    rw (call_function_named, same_lookup) refl
  where
    same_lookup : lookup other functions' ≡ lookup other functions
    same_lookup =
        registered-lookup functions functions' name other type types func names timeout e h
