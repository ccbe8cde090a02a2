-- ===== src/Sql/Refines.antt =====
-- src/entityQuerySql.ts: the condition of a query tests what the query asks.
use arkiv_chain_indexer.Common.{
  ℕ, ◌+◌, ◌-◌, ◌≡◌, ◌∙◌, refl, ap, Bool, true, false, ◌&&◌, ◌||◌, none, some, List, [], ◌∷◌, ◌++◌,
  map, arith, list_eq, eqb, get_elem?, length, All,
}
use arkiv_chain_indexer.Common.Int.{ℤ, pos}
use arkiv_chain_indexer.EntityValues.{AttributeTypeTag, type_id, is_ordered_type}
use arkiv_chain_indexer.Query.Syntax.{Text, QueryValue, value_type, ComparisonOperator}
use arkiv_chain_indexer.Query.Grammar.{IsDefinedOn}
use arkiv_chain_indexer.Sql.{
  Param, text, bytes, small, Condition, value_num, value_bytes, bytes_from, bytes_between,
  query_value_operand, buffer_from, next_byte_prefix,
}
use arkiv_chain_indexer.Sql.Prefix.{IsBytes, next_byte_prefix-range}
use arkiv_chain_indexer.Sql.Rows.{stored_form, stored_record, attribute_rows-map}
use arkiv_chain_indexer.Sql.Meaning.{
  AttributeValue, typed, Attribute, compares, starts, named, some_attribute, IsStored, stored_type,
  row_of, attribute_rows, Postgres, param_at, test_number, test_bytes, test_condition, test_row,
  some_row,
}

-- The list begins with the other.
abbrev pub Extends : List Param → List Param → Type 0
Extends vs vals = (more : List Param) × (vals ≡ vs ++ more)

pub Extends-init :
    (vs vals : List Param) (p : Param) → Extends (vs ++ p ∷ []) vals → Extends vs vals
Extends-init vs vals p (more, e) = (p ∷ more, e ∙ shift vs)
  where
    shift : (xs : List Param) → (xs ++ p ∷ []) ++ more ≡ xs ++ p ∷ more
    shift [] = refl
    shift (x ∷ xs) = ap (λ ys. x ∷ ys) (shift xs)

get_elem?-append :
    (vs more : List Param) (p : Param) → get_elem? ((vs ++ p ∷ []) ++ more) (length vs) ≡ some p
get_elem?-append [] more p = refl
get_elem?-append (x ∷ vs) more p = get_elem?-append vs more p

-- The parameter that was added last is found by its placeholder.
module _ (db : Postgres) (offset : ℕ) where
  pub param_at-last :
      (vs vals : List Param) (p : Param)
      → Extends (vs ++ p ∷ []) vals
      → param_at db offset vals (offset + length vs + 1) ≡ some p
  param_at-last vs vals p (more, e) =
      let index : offset + length vs + 1 - offset - 1 ≡ length vs = omega arith in
      rw (index, e) (get_elem?-append vs more p)

module _ (db : Postgres) (offset : ℕ) (vals : List Param) (decimal : ℤ → Text) where
  -- A condition on the stored form of a value, and the test that it stands for.
  abbrev pub Stands : AttributeTypeTag → Condition → (AttributeValue → Bool) → Type 0
  Stands tag condition p =
      (v : AttributeValue)
      → IsStored v
      → (eqb (stored_type v) (type_id tag)
          && test_condition db offset vals condition (stored_form decimal v))
        ≡ p v

  mapped_row-Stands :
      (n m : ℕ) (condition : Condition) (name : Text) (tag : AttributeTypeTag)
      (p : AttributeValue → Bool)
      → param_at db offset vals n ≡ some (text name)
      → param_at db offset vals m ≡ some (small (type_id tag))
      → Stands tag condition p
      → (attributes : List Attribute) → All (λ a. IsStored a.value) attributes
      → some_row db offset vals
          (test_row db offset vals n m condition)
          (map (λ a. row_of a (stored_record decimal a.value)) attributes)
        ≡ some_attribute (named name p) attributes
  mapped_row-Stands n m condition name tag p at_n at_m stands [] good = refl
  mapped_row-Stands n m condition name tag p at_n at_m stands (a ∷ rest) (good, others) =
      rw (at_n, at_m, stands a.value good)
        (ap (λ b. named name p a || b)
          (mapped_row-Stands n m condition name tag p at_n at_m stands rest others))

  pub some_row-Stands :
      (n m : ℕ) (condition : Condition) (name : Text) (tag : AttributeTypeTag)
      (p : AttributeValue → Bool)
      → param_at db offset vals n ≡ some (text name)
      → param_at db offset vals m ≡ some (small (type_id tag))
      → Stands tag condition p
      → (attributes : List Attribute) → All (λ a. IsStored a.value) attributes
      → some_row db offset vals
          (test_row db offset vals n m condition)
          (attribute_rows decimal attributes)
        ≡ some_attribute (named name p) attributes
  some_row-Stands n m condition name tag p at_n at_m stands attributes good =
      ap (some_row db offset vals (test_row db offset vals n m condition))
        (attribute_rows-map decimal attributes good)
      ∙ mapped_row-Stands n m condition name tag p at_n at_m stands attributes good

  pub ordered-Stands :
      (op : ComparisonOperator) (literal : QueryValue) (k : ℕ)
      → param_at db offset vals k ≡ some (query_value_operand literal)
      → is_ordered_type (value_type literal) ≡ true
      → Stands (value_type literal) (value_num op k) (compares op literal)
  unfolding is_ordered_type value_type stored_type
  ordered-Stands op literal k at_k ordered v good = rw at_k (by_value literal ordered v)
    where
      by_value :
          (w : QueryValue)
          → is_ordered_type (value_type w) ≡ true
          → (v : AttributeValue)
          → (eqb (stored_type v) (type_id (value_type w))
              && test_number db offset vals op
                  (stored_form decimal v).0
                  (some (query_value_operand w)))
            ≡ compares op w v
      by_value (QueryValue.i32 b) h (typed (QueryValue.i32 a)) = db.number_order op a b
      by_value (QueryValue.u64 b) h (typed (QueryValue.u64 a)) = db.number_order op (pos a) (pos b)
      by_value (QueryValue.u256 b) h (typed (QueryValue.u256 a)) =
          db.number_order op (pos a) (pos b)
      by_value (QueryValue.dec b) h (typed (QueryValue.dec a)) = db.number_order op a b
      by_value _ h _ = ground arith

  pub only_equality :
      (op : ComparisonOperator) (literal : QueryValue)
      → IsDefinedOn op literal
      → is_ordered_type (value_type literal) ≡ false
      → op ≡ ComparisonOperator.eq
  only_equality ComparisonOperator.eq literal h k = refl
  only_equality ComparisonOperator.lt literal h k = cc
  only_equality ComparisonOperator.lte literal h k = cc
  only_equality ComparisonOperator.gt literal h k = cc
  only_equality ComparisonOperator.gte literal h k = cc

  pub equal-Stands :
      (op : ComparisonOperator) (literal : QueryValue) (k : ℕ)
      → IsDefinedOn op literal
      → param_at db offset vals k ≡ some (buffer_from (query_value_operand literal))
      → is_ordered_type (value_type literal) ≡ false
      → Stands (value_type literal) (value_bytes op k) (compares op literal)
  unfolding is_ordered_type value_type stored_type
  equal-Stands op literal k defined at_k unordered v good =
      let is_eq = only_equality op literal defined unordered in
      rw (at_k, is_eq) (by_value literal unordered v)
    where
      by_value :
          (w : QueryValue)
          → is_ordered_type (value_type w) ≡ false
          → (v : AttributeValue)
          → (eqb (stored_type v) (type_id (value_type w))
              && test_bytes db offset vals ComparisonOperator.eq
                  (stored_form decimal v).1
                  (some (buffer_from (query_value_operand w))))
            ≡ compares ComparisonOperator.eq w v
      by_value (QueryValue.bool true) h (typed (QueryValue.bool true)) = db.bytes_equal _ _
      by_value (QueryValue.bool true) h (typed (QueryValue.bool false)) = db.bytes_equal _ _
      by_value (QueryValue.bool false) h (typed (QueryValue.bool true)) = db.bytes_equal _ _
      by_value (QueryValue.bool false) h (typed (QueryValue.bool false)) = db.bytes_equal _ _
      by_value (QueryValue.str b) h (typed (QueryValue.str a)) = db.bytes_equal a b
      by_value (QueryValue.addr b) h (typed (QueryValue.addr a)) = db.bytes_equal a b
      by_value (QueryValue.key b) h (typed (QueryValue.key a)) = db.bytes_equal a b
      by_value (QueryValue.bytes32 b) h (typed (QueryValue.bytes32 a)) = db.bytes_equal a b
      by_value _ h _ = ground arith

  pub from-Stands :
      (prefix : Text) (k : ℕ)
      → IsBytes prefix
      → next_byte_prefix prefix ≡ none
      → param_at db offset vals k ≡ some (bytes prefix)
      → Stands AttributeTypeTag.str (bytes_from k) (starts prefix)
  unfolding value_type stored_type
  from-Stands prefix k hp open_ended at_k v good = rw at_k (by_value v good)
    where
      by_value :
          (v : AttributeValue)
          → IsStored v
          → (eqb (stored_type v) (type_id AttributeTypeTag.str)
              && test_bytes db offset vals ComparisonOperator.gte
                  (stored_form decimal v).1
                  (some (bytes prefix)))
            ≡ starts prefix v
      by_value (typed (QueryValue.str s)) hs =
          db.bytes_above s prefix
          ∙ ground (arith, rw open_ended at (next_byte_prefix-range prefix s hp hs))
      by_value _ hs = ground arith

  pub between-Stands :
      (prefix next : Text) (k l : ℕ)
      → IsBytes prefix
      → next_byte_prefix prefix ≡ some next
      → param_at db offset vals k ≡ some (bytes prefix)
      → param_at db offset vals l ≡ some (bytes next)
      → Stands AttributeTypeTag.str (bytes_between k l) (starts prefix)
  unfolding value_type stored_type
  between-Stands prefix next k l hp bounded at_k at_l v good = rw (at_k, at_l) (by_value v good)
    where
      by_value :
          (v : AttributeValue)
          → IsStored v
          → (eqb (stored_type v) (type_id AttributeTypeTag.str)
              && (test_bytes db offset vals ComparisonOperator.gte
                    (stored_form decimal v).1
                    (some (bytes prefix))
                  && test_bytes db offset vals ComparisonOperator.lt
                      (stored_form decimal v).1
                      (some (bytes next))))
            ≡ starts prefix v
      by_value (typed (QueryValue.str s)) hs =
          rw (db.bytes_above s prefix, db.bytes_below s next)
            (rw bounded at (next_byte_prefix-range prefix s hp hs))
      by_value _ hs = ground arith
