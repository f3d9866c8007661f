-- ===== src/RpcProvider/Typed.antt =====
-- What a call that returned says of the provider, the arguments and the time, whatever functions the
-- provider holds.
use tcp_test.Common.{
  Result-cases, ℕ, ◌+◌, ◌≤◌, ◌≡◌, refl, sym, ap, ◌∙◌, true, Option, none, some, ◌⊎◌, List, [], ◌∷◌,
  All, ltb, if◌then◌else◌, get_elem?, Result, ok, err, arith, Bool-cases, inl, inr, ◌≢◌,
  Option-cases, ltb-false→le,
}
use tcp_test.Common.Text.{Text, lookup}
use tcp_test.RpcProvider.{
  any_cast, void_type, TypeInfo, same_type, Exception, rpc_exception, json_exception, bad_any_cast,
  out_of_range, function_exception, timeout_error, timed_out, JsonLibrary, Any, Ended, FunctionInfo,
  RpcProvider, catch_json, convert_json_to_any, order_args, catch_cast, get_result, run_function,
  call_function_named,
}

module _ (L : JsonLibrary) (named_args : L.Json) where
  rest-returns :
      (types : List TypeInfo) (name : Text) (names : List Text) (i : ℕ) (args : List (Any L.Value))
      (x : Exception)
      → order_args L types named_args (name ∷ names) i ≡ ok args
      → order_args L types named_args names (i + 1) ≢ err x
  unfolding order_args
  rest-returns types name names i args x e r = elim (Option-cases (get_elem? types i)) [
    | inl g ↦ ground (arith, e, r, g, Bool-cases (L.contains named_args name))
    | inr (type, g) ↦ ground (
      arith,
      e,
      r,
      g,
      Bool-cases (L.contains named_args name),
      Result-cases (catch_json name (convert_json_to_any L (L.at named_args name) type)),
    )
  ]

  order_args-contains :
      (types : List TypeInfo) (names : List Text) (i : ℕ) (args : List (Any L.Value))
      → order_args L types named_args names i ≡ ok args
      → All (λ (name : Text). L.contains named_args name ≡ true) names
  unfolding order_args
  order_args-contains types [] i args e = tt
  order_args-contains types (name ∷ names) i args e =
      elim (Bool-cases (L.contains named_args name)) [
        | inr missing ↦ absurd (ground (arith, missing, e))
        | inl there ↦ (
          there,
          elim (Result-cases (order_args L types named_args names (i + 1))) [
            | inl (rest, r) ↦ order_args-contains types names (i + 1) rest r
            | inr (x, r) ↦ absurd (rest-returns types name names i args x e r)
          ],
        )
      ]

catch_cast-ok : {A : Type 0} (r : Result Exception A) (a : A) → catch_cast r ≡ ok a → r ≡ ok a
unfolding catch_cast
catch_cast-ok (ok b) a e = e
catch_cast-ok (err bad_any_cast) a e = absurd (cc e)
catch_cast-ok (err json_exception) a e = absurd (cc e)
catch_cast-ok (err out_of_range) a e = absurd (cc e)
catch_cast-ok (err (rpc_exception type message)) a e = absurd (cc e)
catch_cast-ok (err (function_exception n)) a e = absurd (cc e)

-- A run that ended with a result was in time.
run_function-ok :
    {V : Type 0} (name : Text) (type : TypeInfo) (info : FunctionInfo V) (args : List (Any V))
    (result : Option V)
    → (run_function name type info args).outcome ≡ ok result
    → ((info.func args).elapsed ≤ info.timeout)
      × (get_result type (info.func args).outcome ≡ ok result)
unfolding run_function
run_function-ok name type info args result e =
    elim (Bool-cases (ltb info.timeout (info.func args).elapsed)) [
      | inl late ↦ absurd (ground (arith, late, returned))
      | inr in_time ↦ (
        ltb-false→le info.timeout (info.func args).elapsed in_time,
        ground (arith, in_time, returned),
      )
    ]
  where
    returned :
        (if ltb info.timeout (info.func args).elapsed
          then err (rpc_exception timeout_error (timed_out name))
          else get_result type (info.func args).outcome)
        ≡ ok result
    returned = catch_cast-ok _ result e

-- What a call for this type may answer where a function returned this value.
abbrev pub Answers : {V : Type 0} → TypeInfo → Any V → Option V → Type 0
Answers {V} type returned result =
    ((same_type type void_type ≡ true) × (result ≡ none))
    ⊎ ((same_type returned.type type ≡ true)
        × ((value : V) × (returned.value ≡ some value) × (result ≡ some value)))

any_cast-ok :
    {V : Type 0} (type : TypeInfo) (a : Any V) (value : V)
    → any_cast type a ≡ ok value
    → (same_type a.type type ≡ true) × (a.value ≡ some value)
unfolding any_cast
any_cast-ok type a value e = elim (Option-cases a.value) [
  | inl nothing ↦ absurd (ground (arith, e, nothing))
  | inr (v, there) ↦ elim (Bool-cases (same_type a.type type)) [
    | inl same ↦ (same, ground (arith, e, there, same))
    | inr other ↦ absurd (ground (arith, e, there, other))
  ]
]

get_result-ok :
    {V : Type 0} (type : TypeInfo) (outcome : Result Exception (Any V)) (result : Option V)
    → get_result type outcome ≡ ok result
    → (returned : Any V) × (outcome ≡ ok returned) × Answers type returned result
unfolding get_result
get_result-ok type (err x) result e =
    absurd (ground (arith, e, Bool-cases (same_type type void_type)))
get_result-ok type (ok a) result e = elim (Bool-cases (same_type type void_type)) [
  | inl void ↦ (a, refl, inl (void, ground (arith, e, void)))
  | inr typed ↦ elim (Result-cases (any_cast type a)) [
    | inr (x, thrown) ↦ absurd (ground (arith, e, typed, thrown))
    | inl (value, cast) ↦
        let (same, there) = any_cast-ok type a value cast in
        (a, refl, inr (same, (value, there, ground (arith, e, typed, cast))))
  ]
]

-- A call returns a result only where a function with the requested return type is registered under the
-- name, every one of its parameters is among the arguments, and the function returned a value within its
-- time. The result is that value, which has the requested type, or nothing where that is void.
pub call_function_named-typed :
    (L : JsonLibrary) (functions : RpcProvider L.Value) (type : TypeInfo) (name : Text)
    (named_args : L.Json) (result : Option L.Value)
    → (call_function_named L functions type name named_args).outcome ≡ ok result
    → (info : FunctionInfo L.Value) × (args : List (Any L.Value)) × (lookup name functions
        ≡ some info)
      × (same_type info.return_type type ≡ true)
      × All (λ (parameter : Text). L.contains named_args parameter ≡ true) info.param_names
      × (order_args L info.param_types named_args info.param_names 0 ≡ ok args)
      × ((call_function_named L functions type name named_args).elapsed ≡ (info.func args).elapsed)
      × ((info.func args).elapsed ≤ info.timeout)
      × ((returned : Any L.Value) × ((info.func args).outcome ≡ ok returned)
          × Answers type returned result)
unfolding call_function_named run_function
call_function_named-typed L functions type name named_args result e =
    elim (Option-cases (lookup name functions)) [
      | inl l ↦ absurd (ground (arith, l, e))
      | inr (info, l) ↦ elim (Bool-cases (same_type info.return_type type)) [
        | inr wrong ↦ absurd (ground (arith, l, wrong, e))
        | inl same ↦
            elim (Result-cases (order_args L info.param_types named_args info.param_names 0)) [
              | inr (x, o) ↦ absurd (ground (arith, l, same, o, e))
              | inl (args, o) ↦
                  let runs : call_function_named L functions type name named_args
                      ≡ run_function name type info args =
                    rw (call_function_named, l, same, o) refl in
                  let (in_time, got) =
                    run_function-ok name type info args result
                      (ap (λ (r : Ended (Option L.Value)). r.outcome) (sym runs) ∙ e) in
                  (
                    info,
                    args,
                    l,
                    same,
                    order_args-contains L named_args info.param_types info.param_names 0 args o,
                    o,
                    ap (λ (r : Ended (Option L.Value)). r.elapsed) runs,
                    in_time,
                    get_result-ok type (info.func args).outcome result got,
                  )
            ]
      ]
    ]
