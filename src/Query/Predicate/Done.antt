-- ===== src/Query/Predicate/Done.antt =====
-- src/entityQueryLanguage.ts: every predicate is read to its end, and takes its tokens.
use arkiv_chain_indexer.Common.{ℕ, suc, Option, none, some, List, [], ◌∷◌, arith, length}
use arkiv_chain_indexer.Query.Ends.{Ends, IsDone, bind-IsDone}
use arkiv_chain_indexer.Query.Syntax.{
  Text, Outcome, ok, fail, out_of_fuel, ◌>>=◌, Token, SpannedToken, QueryValue, AttributeRef, user,
  builtin, owner, creator, entity_key, expires_at, created_at, ComparisonOperator, QueryAst,
}
use arkiv_chain_indexer.Query.Lexer.{Host, type_tag_from_name}
use arkiv_chain_indexer.Query.Literals.Done.{
  parse_i32-IsDone, parse_addr-IsDone, parse_word_hex-IsDone, parse_tagged-IsDone, wrap-IsDone,
}
use arkiv_chain_indexer.Query.Predicate.{
  builtin_from_name, not_a_type, validate_user_name, bare_int_value, bare_str_value,
  check_value_type, check_operator, token_value, value_of, token_attr_ref, Operator, comparison,
  prefix, token_operator, leaf, predicate_at,
}

builtin_from_name-IsDone : (name : Text) (position : ℕ) → IsDone (builtin_from_name name position)
unfolding builtin_from_name
builtin_from_name-IsDone name position = ground arith

not_a_type-IsDone :
    (name : Text) (position : ℕ) (tag : Option _) → IsDone (not_a_type name position tag)
unfolding not_a_type
not_a_type-IsDone name position none = tt
not_a_type-IsDone name position (some tag) = tt

validate_user_name-IsDone : (name : Text) (position : ℕ) → IsDone (validate_user_name name position)
unfolding validate_user_name
validate_user_name-IsDone name position =
    ground (arith, not_a_type-IsDone name position (type_tag_from_name name))

bare_int_value-IsDone :
    (host : Host) (key : AttributeRef) (text : Text) (position : ℕ)
    → IsDone (bare_int_value host key text position)
unfolding bare_int_value
bare_int_value-IsDone host (user name) text p =
    wrap-IsDone QueryValue.i32 _ (parse_i32-IsDone host text p)
bare_int_value-IsDone host (builtin field) text p = tt

bare_str_value-IsDone :
    (host : Host) (key : AttributeRef) (text : Text) (position : ℕ)
    → IsDone (bare_str_value host key text position)
unfolding bare_str_value
bare_str_value-IsDone host (user name) text p = tt
bare_str_value-IsDone host (builtin owner) text p =
    wrap-IsDone QueryValue.addr _ (parse_addr-IsDone host text p)
bare_str_value-IsDone host (builtin creator) text p =
    wrap-IsDone QueryValue.addr _ (parse_addr-IsDone host text p)
bare_str_value-IsDone host (builtin entity_key) text p =
    wrap-IsDone QueryValue.key _ (parse_word_hex-IsDone host text p _)
bare_str_value-IsDone host (builtin expires_at) text p = tt
bare_str_value-IsDone host (builtin created_at) text p = tt

check_value_type-IsDone :
    (key : AttributeRef) (value : QueryValue) (position : ℕ)
    → IsDone (check_value_type key value position)
unfolding check_value_type
check_value_type-IsDone (user name) value p = tt
check_value_type-IsDone (builtin field) value p = ground arith

check_operator-IsDone :
    (op : ComparisonOperator) (value : QueryValue) (position : ℕ)
    → IsDone (check_operator op value position)
unfolding check_operator
check_operator-IsDone op value p = ground arith

token_value-IsDone :
    (host : Host) (key : AttributeRef) (s : SpannedToken) → IsDone (token_value host key s)
unfolding token_value
token_value-IsDone host key s = by_token s.token
  where
    by_token : (t : Token) → IsDone (token_value host key (record { token = t; start = s.start }))
    by_token (Token.tagged tag body start) = parse_tagged-IsDone host tag body start
    by_token Token.kw_true = tt
    by_token Token.kw_false = tt
    by_token (Token.int text) = bare_int_value-IsDone host key text s.start
    by_token (Token.quoted text) = bare_str_value-IsDone host key text s.start
    by_token _ = tt

value_of-IsDone :
    (host : Host) (key : AttributeRef) (s : SpannedToken) → IsDone (value_of host key s)
unfolding value_of
value_of-IsDone host key s =
    bind-IsDone (token_value host key s) _ (token_value-IsDone host key s)
      (λ value. check_value_type-IsDone key value s.start)

token_attr_ref-IsDone : (s : SpannedToken) → IsDone (token_attr_ref s)
unfolding token_attr_ref
token_attr_ref-IsDone s = by_token s.token
  where
    by_token : (t : Token) → IsDone (token_attr_ref (record { token = t; start = s.start }))
    by_token (Token.name text) = validate_user_name-IsDone text s.start
    by_token (Token.sysname text) = wrap-IsDone builtin _ (builtin_from_name-IsDone text s.start)
    by_token _ = tt

token_operator-IsDone : (s : SpannedToken) → IsDone (token_operator s)
unfolding token_operator
token_operator-IsDone s = by_token s.token
  where
    by_token : (t : Token) → IsDone (token_operator (record { token = t; start = s.start }))
    by_token Token.equal = tt
    by_token _ = tt

leaf-IsDone :
    (key : AttributeRef) (op : Operator) (value : QueryValue) (position : ℕ)
    → IsDone (leaf key op value position)
unfolding leaf
leaf-IsDone key (comparison op) value p =
    bind-IsDone (check_operator op value p) _ (check_operator-IsDone op value p) (λ _. tt)
leaf-IsDone key prefix (QueryValue.str text) p = tt
leaf-IsDone key prefix _ p = tt

-- A run that is done, and then goes on within a bound.
after-Ends {ℓ κ} :
    {A : Type ℓ} {B : Type κ} (μ : B → ℕ) (n : ℕ) (m : Outcome A) (f : A → Outcome B)
    → IsDone m
    → ((a : A) → Ends μ n (f a))
    → Ends μ n (m >>= f)
after-Ends μ n (ok a) f h k = k a
after-Ends μ n (fail e) f h k = tt
after-Ends μ n out_of_fuel f h k = h

abbrev pub rest_after : QueryAst × List SpannedToken → ℕ
rest_after p = suc (length p.1)

-- A predicate ends, and takes a token at least.
pub predicate_at-Ends :
    (host : Host) (end : ℕ) (ts : List SpannedToken)
    → Ends rest_after (length ts) (predicate_at host end ts)
unfolding predicate_at
predicate_at-Ends host end [] = tt
predicate_at-Ends host end (k ∷ []) =
    after-Ends rest_after 1 (token_attr_ref k) _ (token_attr_ref-IsDone k) (λ _. tt)
predicate_at-Ends host end (k ∷ o ∷ []) =
    after-Ends rest_after 2 (token_attr_ref k) _ (token_attr_ref-IsDone k)
      (λ _. after-Ends rest_after 2 (token_operator o) _ (token_operator-IsDone o) (λ _. tt))
predicate_at-Ends host end (k ∷ o ∷ v ∷ ts) =
    let n = length (k ∷ o ∷ v ∷ ts) in
    after-Ends rest_after n (token_attr_ref k) _ (token_attr_ref-IsDone k) (λ key.
      after-Ends rest_after n (token_operator o) _ (token_operator-IsDone o) (λ op.
        after-Ends rest_after n (value_of host key v) _ (value_of-IsDone host key v) (λ value.
          after-Ends rest_after n (leaf key op value v.start) _ (leaf-IsDone key op value v.start)
            (λ ast. omega arith))))
