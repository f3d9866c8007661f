-- ===== src/RpcProvider/Tests.antt =====
-- A small JSON library: an object is a list of names with numbers, and only `int` can be got.
use tcp_test.Common.{
  ℕ, ◌+◌, ◌≡◌, refl, Bool, true, false, Option, none, some, List, [], ◌∷◌, All, ◌≤◌, arith, ok, err,
}
use tcp_test.Common.Text.{Text, lookup, same_text}
use tcp_test.RpcProvider.{
  TypeInfo, int_type, same_type, rpc_exception, timeout_error, timed_out, JsonLibrary, Ended,
  RpcProvider, register_function, call_function_named, catch_cast, FunctionInfo, Any, checked_call,
  order_args, get_result, convert_json_to_any, json_to_any, catch_json, run_function, call_impl,
  cast_all, any_cast, return_any,
}
use tcp_test.RpcProvider.Arguments.{argument, arguments}
use tcp_test.RpcProvider.Calls.{expected, call_function_named-register}
use tcp_test.RpcProvider.Typed.{Answers, call_function_named-typed}
use tcp_test.RpcProvider.Splitting.{is_space, split}
use tcp_test.RpcProvider.Splitting.Spelling.{spell, split-spell}

abbrev has : Option ℕ → Bool
has none = false
has (some n) = true

abbrev value_of : Option ℕ → ℕ
value_of none = 0
value_of (some n) = n

abbrev int_only : TypeInfo → ℕ → Option ℕ
int_only int_type n = some n
int_only _ n = none

-- The value at a name is an object of that one number.
abbrev library : JsonLibrary
library = record {
  Json = List (Text × ℕ);
  Value = ℕ;
  contains = λ j name. has (lookup name j);
  at = λ j name. (([]), value_of (lookup name j)) ∷ [];
  get = λ type j. int_only type (value_of (lookup [] j));
}

-- The sum of two numbers; it takes as many milliseconds as the first says.
abbrev sum_two : List ℕ → Ended ℕ
sum_two [] = record { elapsed = 0; outcome = ok 0 }
sum_two (a ∷ []) = record { elapsed = 0; outcome = ok a }
sum_two (a ∷ b ∷ more) = record { elapsed = a; outcome = ok (a + b) }

abbrev names : List Text
names = (97 ∷ []) ∷ (98 ∷ []) ∷ []

abbrev call_with : ℕ → List (Text × ℕ)
call_with n = (98 ∷ [], 4) ∷ (97 ∷ [], n) ∷ []

call_function_named-register_example :
    (functions : RpcProvider ℕ) × (register_function []
        (102 ∷ [])
        int_type
        (int_type ∷ int_type ∷ [])
        sum_two
        names
        5000
      ≡ ok functions)
    × (call_function_named library functions int_type (102 ∷ []) (call_with 3)
        ≡ record { elapsed = 3; outcome = ok (some 7) })
unfolding arguments argument expected same_type catch_cast lookup same_text
call_function_named-register_example =
    call_function_named-register library [] (102 ∷ []) int_type (int_type ∷ int_type ∷ []) sum_two
      names 5000 (call_with 3) refl

abbrev sums : RpcProvider ℕ
sums =
    (
      102 ∷ [],
      record {
        return_type = int_type;
        param_types = int_type ∷ int_type ∷ [];
        param_names = names;
        func = checked_call int_type (int_type ∷ int_type ∷ []) sum_two;
        timeout = 5000;
      },
    )
    ∷ []

call_function_named-typed_example :
    (info : FunctionInfo ℕ) × (args : List (Any ℕ)) × (lookup (102 ∷ []) sums ≡ some info)
    × (same_type info.return_type int_type ≡ true)
    × All (λ (parameter : Text). library.contains (call_with 3) parameter ≡ true) info.param_names
    × (order_args library info.param_types (call_with 3) info.param_names 0 ≡ ok args)
    × (3 ≡ (info.func args).elapsed)
    × ((info.func args).elapsed ≤ info.timeout)
    × ((returned : Any ℕ) × ((info.func args).outcome ≡ ok returned)
        × Answers int_type returned (some 7))
unfolding same_type lookup same_text call_function_named order_args convert_json_to_any json_to_any
    catch_json run_function checked_call call_impl cast_all any_cast return_any get_result
    catch_cast
call_function_named-typed_example =
    call_function_named-typed library sums int_type (102 ∷ []) (call_with 3) (some 7) refl

-- A call that takes six seconds ends in a timeout, after six seconds.
slow_call :
    expected (102 ∷ []) int_type 5000 (sum_two (6000 ∷ 4 ∷ []))
    ≡ record { elapsed = 6000; outcome = err (rpc_exception timeout_error (timed_out (102 ∷ []))) }
unfolding expected catch_cast
slow_call = refl

-- ` a ,b,` has the names `a` and `b`.
split-spell_example : split (32 ∷ 97 ∷ 32 ∷ 44 ∷ 98 ∷ []) 44 ≡ (97 ∷ []) ∷ (98 ∷ []) ∷ []
unfolding spell is_space
split-spell_example =
    split-spell 44
      (record { before = 32 ∷ []; name = 97 ∷ []; after = 32 ∷ [] }
        ∷ record { before = []; name = 98 ∷ []; after = [] }
        ∷ [])
      refl
      (
        record {
          before_spaces = (refl, tt);
          token = record { lacks = omega arith; starts = refl; ends = refl };
          after_spaces = (refl, tt);
        },
        (
          record {
            before_spaces = tt;
            token = record { lacks = omega arith; starts = refl; ends = refl };
            after_spaces = tt;
          },
          tt,
        ),
      )
