-- ===== src/RpcProvider/Arguments.antt =====
-- The arguments of a call by their names, in the order of the parameters.
use tcp_test.Common.{
  ℕ, suc, ◌+◌, ◌≡◌, refl, sym, ap, ◌∙◌, true, false, none, some, List, [], ◌∷◌, ◌++◌, length,
  if◌then◌else◌, get_elem?, Result, ok, err, ◌>>=◌, arith, Bool-cases, inl, inr, Option-cases,
  append_snoc, length-append,
}
use tcp_test.Common.Text.{Text}
use tcp_test.RpcProvider.{
  TypeInfo, int_type, long_type, float_type, double_type, bool_type, string_type, ints_type,
  strings_type, void_type, other_type, same_type, Exception, rpc_exception, type_mismatch,
  argument_error, unsupported_type, missing_argument, conversion_error, JsonLibrary, Any, make_any,
  any_cast, cast_all, map_outcome, is_supported, json_to_any, convert_json_to_any, catch_json,
  order_args,
}

module _ (L : JsonLibrary) (named_args : L.Json) where
  -- The values of the arguments, in the order of the parameters, or what is wrong with the first bad one.
  unfoldable pub argument : Text → TypeInfo → Result Exception L.Value
  argument name type =
      if L.contains named_args name
      then if is_supported type
        then (elim (L.get type (L.at named_args name)) [
          | none ↦ err (rpc_exception type_mismatch (conversion_error name))
          | some value ↦ ok value
        ])
        else err (rpc_exception type_mismatch (unsupported_type type))
      else err (rpc_exception argument_error (missing_argument name))

  unfoldable pub arguments : List Text → List TypeInfo → Result Exception (List L.Value)
  arguments [] types = ok []
  arguments (name ∷ names) [] = ok []
  arguments (name ∷ names) (type ∷ types) =
      argument name type >>= λ value. arguments names types >>= λ values. ok (value ∷ values)

-- Values with their types.
abbrev pub tag : {V : Type 0} → List TypeInfo → List V → List (Any V)
tag [] values = []
tag (type ∷ types) [] = []
tag (type ∷ types) (value ∷ values) = make_any type value ∷ tag types values

pub same_type_refl : (t : TypeInfo) → same_type t t ≡ true
unfolding same_type
same_type_refl t = ground arith

pub cast-tag :
    {V : Type 0} (types : List TypeInfo) (values : List V)
    → length values ≡ length types
    → cast_all types (tag types values) ≡ ok values
unfolding cast_all any_cast
cast-tag [] [] h = refl
cast-tag [] (v ∷ values) h = absurd (omega arith)
cast-tag (t ∷ types) [] h = absurd (omega arith)
cast-tag (t ∷ types) (v ∷ values) h = ground (arith, same_type_refl t, cast-tag types values)

pub length-tag :
    {V : Type 0} (types : List TypeInfo) (values : List V)
    → length values ≡ length types
    → length (tag types values) ≡ length types
length-tag [] [] h = refl
length-tag [] (v ∷ values) h = refl
length-tag (t ∷ types) [] h = absurd (omega arith)
length-tag (t ∷ types) (v ∷ values) h = omega (arith, length-tag types values)

get-behind :
    (before : List TypeInfo) (t : TypeInfo) (after : List TypeInfo)
    → get_elem? (before ++ (t ∷ after)) (length before) ≡ some t
get-behind [] t after = refl
get-behind (u ∷ before) t after = get-behind before t after

convert_lem :
    (L : JsonLibrary) (j : L.Json) (type : TypeInfo)
    → convert_json_to_any L j type ≡ (
        if is_supported type
        then json_to_any L type j
        else err (rpc_exception type_mismatch (unsupported_type type)))
unfolding convert_json_to_any
convert_lem L j int_type = refl
convert_lem L j long_type = refl
convert_lem L j float_type = refl
convert_lem L j double_type = refl
convert_lem L j bool_type = refl
convert_lem L j string_type = refl
convert_lem L j ints_type = refl
convert_lem L j strings_type = refl
convert_lem L j void_type = refl
convert_lem L j (other_type n) = refl

tag-bind :
    {V : Type 0} (t : TypeInfo) (types : List TypeInfo) (a : Result Exception V)
    (r : Result Exception (List V))
    → (map_outcome (make_any t) a >>= λ x. map_outcome (tag types) r >>= λ xs. ok (x ∷ xs))
      ≡ map_outcome (tag (t ∷ types)) (a >>= λ v. r >>= λ vs. ok (v ∷ vs))
tag-bind t types (ok v) (ok vs) = refl
tag-bind t types (ok v) (err e) = refl
tag-bind t types (err e) r = refl

module _ (L : JsonLibrary) (named_args : L.Json) where
  convert-argument :
      (name : Text) (type : TypeInfo)
      → L.contains named_args name ≡ true
      → catch_json name (convert_json_to_any L (L.at named_args name) type)
        ≡ map_outcome (make_any type) (argument L named_args name type)
  unfolding catch_json json_to_any argument
  convert-argument name type h = ground (
    arith,
    h,
    convert_lem L (L.at named_args name) type,
    Bool-cases (is_supported type),
    Option-cases (L.get type (L.at named_args name)),
  )

  argument-missing :
      (name : Text) (type : TypeInfo)
      → L.contains named_args name ≡ false
      → argument L named_args name type ≡ err (rpc_exception argument_error (missing_argument name))
  unfolding argument
  argument-missing name type h = rw h refl

  pub length-arguments :
      (names : List Text) (types : List TypeInfo) (values : List L.Value)
      → length names ≡ length types
      → arguments L named_args names types ≡ ok values
      → length values ≡ length types
  unfolding arguments
  length-arguments [] [] values h e = ground (arith, e)
  length-arguments [] (t ∷ types) values h e = absurd (omega arith)
  length-arguments (n ∷ names) [] values h e = absurd (omega arith)
  length-arguments (n ∷ names) (t ∷ types) values h e =
      further (argument L named_args n t) (arguments L named_args names types) e
        (length-arguments names types)
    where
      further :
          (a : Result Exception L.Value) (r : Result Exception (List L.Value))
          → (a >>= λ value. r >>= λ values'. ok (value ∷ values')) ≡ ok values
          → ((values' : List L.Value)
              → length names ≡ length types
              → r ≡ ok values'
              → length values' ≡ length types)
          → length values ≡ suc (length types)
      further (ok value) (ok values') e' ih = ground (arith, e', ih values' (omega arith) refl)
      further (ok value) (err x) e' ih = absurd (ground (arith, e'))
      further (err x) r e' ih = absurd (ground (arith, e'))

  pub order-arguments :
      (names : List Text) (before types : List TypeInfo) (i : ℕ)
      → i ≡ length before
      → length names ≡ length types
      → order_args L (before ++ types) named_args names i
        ≡ map_outcome (tag types) (arguments L named_args names types)
  unfolding order_args arguments
  order-arguments [] before [] i e h = refl
  order-arguments [] before (t ∷ types) i e h = absurd (omega arith)
  order-arguments (n ∷ names) before [] i e h = absurd (omega arith)
  order-arguments (n ∷ names) before (t ∷ types) i e h =
      let found : get_elem? (before ++ (t ∷ types)) i ≡ some t =
        ap (get_elem? (before ++ (t ∷ types))) e ∙ get-behind before t types in
      let rest : order_args L (before ++ (t ∷ types)) named_args names (i + 1)
          ≡ map_outcome (tag types) (arguments L named_args names types) =
        ap (λ (l : List TypeInfo). order_args L l named_args names (i + 1))
          (sym (append_snoc before t types))
        ∙ order-arguments names (before ++ (t ∷ [])) types (i + 1)
            (omega (arith, length-append before (t ∷ []))) (omega arith) in
      elim (Bool-cases (L.contains named_args n)) [
        | inl there ↦
            rw (order_args, there, found)
              (ap
                  (λ (r : Result Exception (Any L.Value)). r >>= λ a.
                    order_args L (before ++ (t ∷ types)) named_args names (i + 1) >>= λ args.
                    ok (a ∷ args))
                  (convert-argument n t there)
                ∙ ap
                    (λ (r : Result Exception (List (Any L.Value))).
                      map_outcome (make_any t) (argument L named_args n t) >>= λ a.
                      r >>= λ args. ok (a ∷ args))
                    rest
                ∙ tag-bind t types (argument L named_args n t) (arguments L named_args names types))
        | inr missing ↦ rw (order_args, missing, argument-missing n t missing) refl
      ]
