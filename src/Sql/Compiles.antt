-- ===== src/Sql/Compiles.antt =====
-- src/entityQuerySql.ts: every well-typed query compiles, and its condition tests what it asks.
use arkiv_chain_indexer.Common.{
  ℕ, ◌+◌, ◌≤◌, ◌≡◌, ◌∙◌, refl, ap, inl, inr, Bool, true, false, some, List, [], ◌∷◌, ◌++◌, arith,
  ◌==◌, list_eq, if◌then◌else◌, length, Option-cases, Bool-cases,
}
use arkiv_chain_indexer.Common.Int.{ℤ, pos}
use arkiv_chain_indexer.Common.Try.{returned}
use arkiv_chain_indexer.EntityValues.{AttributeTypeTag, type_id, is_ordered_type}
use arkiv_chain_indexer.Query.Syntax.{
  Text, QueryValue, value_type, BuiltInField, user, builtin, ComparisonOperator, QueryAst,
}
use arkiv_chain_indexer.Query.Predicate.{builtin_type}
use arkiv_chain_indexer.Query.Grammar.{HasType, IsDefinedOn}
use arkiv_chain_indexer.Sql.{
  i64_max, Param, text, bytes, small, Condition, Sql, always, never, both, either, negated,
  query_value_operand, buffer_from, Params, compile_builtin, compile_prefix, compile_comparison,
  compile_node, next_byte_prefix, is_beyond, is_upper_bound, builtin_column,
}
use arkiv_chain_indexer.Sql.Prefix.{IsBytes}
use arkiv_chain_indexer.Sql.Meaning.{
  AttributeValue, Entity, value_holds, field_value, compares, starts, named, some_attribute,
  matches, IsWellTyped, IsEntity, Postgres, test_text, test_column, test,
}
use arkiv_chain_indexer.Sql.{compile_exists}
use arkiv_chain_indexer.Sql.Refines.{
  Extends, Extends-init, param_at-last, Stands, some_row-Stands, ordered-Stands, equal-Stands,
  from-Stands, between-Stands, only_equality,
}

module _ (db : Postgres) (offset : ℕ) (decimal : ℤ → Text) (e : Entity) where
  abbrev pub at : List Param → Params
  at vs = record { offset = offset; values = vs }

  -- What a compiled node leaves: its parameters after those that were there, and a condition
  -- that tests `wanted`.
  abbrev Tests : Bool → Sql × Params → List Param → Type 0
  Tests wanted (sql, params) vs =
      (params.offset ≡ offset)
      × ((vals : List Param)
          → Extends params.values vals
          → Extends vs vals × (test db offset vals decimal sql e ≡ wanted))

  beyond_holds :
      (field : BuiltInField) (op : ComparisonOperator) (value : QueryValue)
      → is_beyond field value ≡ true
      → HasType (builtin field) value
      → e.created_at ≤ i64_max
      → (vals : List Param)
      → test db offset vals decimal (if is_upper_bound op then always else never) e
        ≡ value_holds op (field_value e field) value
  unfolding value_type builtin_type
  beyond_holds BuiltInField.created_at ComparisonOperator.eq (QueryValue.u64 n) b t h vals =
      ground arith
  beyond_holds BuiltInField.created_at ComparisonOperator.lt (QueryValue.u64 n) b t h vals =
      ground arith
  beyond_holds BuiltInField.created_at ComparisonOperator.lte (QueryValue.u64 n) b t h vals =
      ground arith
  beyond_holds BuiltInField.created_at ComparisonOperator.gt (QueryValue.u64 n) b t h vals =
      ground arith
  beyond_holds BuiltInField.created_at ComparisonOperator.gte (QueryValue.u64 n) b t h vals =
      ground arith
  beyond_holds BuiltInField.created_at op (QueryValue.u256 n) b t h vals = cc t
  beyond_holds _ op value b t h vals = cc b

  text_column :
      (op : ComparisonOperator) (value : QueryValue) (column_text value_text : Text)
      (vals : List Param)
      → IsDefinedOn op value
      → is_ordered_type (value_type value) ≡ false
      → test_text db offset vals op column_text (some (text value_text))
        ≡ (column_text == value_text)
  text_column op value column_text value_text vals defined unordered =
      rw (only_equality db offset vals decimal op value defined unordered)
        (db.text_equal column_text value_text)

  column_holds :
      (field : BuiltInField) (op : ComparisonOperator) (value : QueryValue)
      → HasType (builtin field) value
      → IsDefinedOn op value
      → (vals : List Param)
      → test_column db offset vals (builtin_column field) op e (some (query_value_operand value))
        ≡ value_holds op (field_value e field) value
  unfolding value_type builtin_type is_ordered_type
  column_holds BuiltInField.owner op (QueryValue.addr b) t defined vals =
      text_column op (QueryValue.addr b) e.owner b vals defined refl
  column_holds BuiltInField.creator op (QueryValue.addr b) t defined vals =
      text_column op (QueryValue.addr b) e.creator b vals defined refl
  column_holds BuiltInField.entity_key op (QueryValue.key b) t defined vals =
      text_column op (QueryValue.key b) e.entity_key b vals defined refl
  column_holds BuiltInField.expires_at op (QueryValue.u64 n) t defined vals =
      db.number_order op (pos e.expires_at) (pos n)
  column_holds BuiltInField.created_at op (QueryValue.u64 n) t defined vals =
      db.number_order op (pos e.created_at) (pos n)
  column_holds _ op _ t defined vals = ground (arith, t)

  compile_builtin-Tests :
      (field : BuiltInField) (op : ComparisonOperator) (value : QueryValue)
      → HasType (builtin field) value
      → IsDefinedOn op value
      → IsEntity e
      → (vs : List Param)
      → Tests
          (value_holds op (field_value e field) value)
          (compile_builtin field op value (at vs))
          vs
  unfolding compile_builtin
  compile_builtin-Tests field op value typing defined (small_enough, _) vs =
      elim (Bool-cases (is_beyond field value)) [
        | inl beyond ↦
            rw (beyond, compile_builtin)
              (refl, λ vals ext. (ext, beyond_holds field op value beyond typing small_enough vals))
        | inr within ↦
            rw (within, compile_builtin)
              (
                refl,
                λ vals ext. (
                  Extends-init vs vals _ ext,
                  let found = param_at-last db offset vs vals (query_value_operand value) ext in
                      rw found (column_holds field op value typing defined vals),
                ),
              )
      ]

  compile_exists-Tests :
      (name : Text) (tag : AttributeTypeTag) (compile : Params → Condition × Params)
      (p : AttributeValue → Bool)
      → IsEntity e
      → (vs : List Param)
      → ((base : List Param)
          → let (condition, params) = compile (at base) in
            (params.offset ≡ offset)
            × ((vals : List Param)
                → Extends params.values vals
                → Extends base vals × Stands db offset vals decimal tag condition p))
      → Tests
          (some_attribute (named name p) e.attributes)
          (compile_exists name tag compile (at vs))
          vs
  compile_exists-Tests name tag compile p (_, stored) vs compiles =
      let base = (vs ++ text name ∷ []) ++ small (type_id tag) ∷ [] in
      let (same, k) = compiles base in
      (
        same,
        λ vals ext.
            let (ext2, stands) = k vals ext in
            let ext1 = Extends-init (vs ++ text name ∷ []) vals (small (type_id tag)) ext2 in
            (
              Extends-init vs vals (text name) ext1,
              some_row-Stands db offset vals decimal (offset + length vs + 1)
                  (offset + length (vs ++ text name ∷ []) + 1) _ name tag p
                  (param_at-last db offset vs vals (text name) ext1)
                  (param_at-last db offset (vs ++ text name ∷ []) vals (small (type_id tag)) ext2)
                  stands e.attributes stored,
            ),
      )

  prefix-compiles :
      (prefix : Text)
      → IsBytes prefix
      → (base : List Param)
      → let (condition, params) = compile_prefix prefix (at base) in
        (params.offset ≡ offset)
        × ((vals : List Param)
            → Extends params.values vals
            → Extends base vals
              × Stands db offset vals decimal AttributeTypeTag.str condition (starts prefix))
  unfolding compile_prefix
  prefix-compiles prefix good base = elim (Option-cases (next_byte_prefix prefix)) [
    | inl open_ended ↦
        rw (open_ended, compile_prefix)
          (
            refl,
            λ vals ext. (
              Extends-init base vals (bytes prefix) ext,
              from-Stands db offset vals decimal prefix (offset + length base + 1) good open_ended
                  (param_at-last db offset base vals (bytes prefix) ext),
            ),
          )
    | inr (next, bounded) ↦
        rw (bounded, compile_prefix)
          (
            refl,
            λ vals ext.
                let ext1 = Extends-init (base ++ bytes prefix ∷ []) vals (bytes next) ext in
                (
                  Extends-init base vals (bytes prefix) ext1,
                  between-Stands db offset vals decimal prefix next (offset + length base + 1)
                      (offset + length (base ++ bytes prefix ∷ []) + 1) good bounded
                      (param_at-last db offset base vals (bytes prefix) ext1)
                      (param_at-last db offset (base ++ bytes prefix ∷ []) vals (bytes next) ext),
                ),
          )
  ]

  comparison-compiles :
      (op : ComparisonOperator) (value : QueryValue)
      → IsDefinedOn op value
      → (base : List Param)
      → let (condition, params) = compile_comparison op value (at base) in
        (params.offset ≡ offset)
        × ((vals : List Param)
            → Extends params.values vals
            → Extends base vals
              × Stands db offset vals decimal (value_type value) condition (compares op value))
  unfolding compile_comparison
  comparison-compiles op value defined base =
      elim (Bool-cases (is_ordered_type (value_type value))) [
        | inl ordered ↦
            rw (ordered, compile_comparison)
              (
                refl,
                λ vals ext. (
                  Extends-init base vals (query_value_operand value) ext,
                  ordered-Stands db offset vals decimal op value (offset + length base + 1)
                      (param_at-last db offset base vals (query_value_operand value) ext) ordered,
                ),
              )
        | inr unordered ↦
            rw (unordered, compile_comparison)
              (
                refl,
                λ vals ext. (
                  Extends-init base vals (buffer_from (query_value_operand value)) ext,
                  equal-Stands db offset vals decimal op value (offset + length base + 1) defined
                      (param_at-last db offset base vals (buffer_from (query_value_operand value))
                        ext)
                      unordered,
                ),
              )
      ]

  -- A node compiles, to a condition that tests what it asks of the entity.
  abbrev pub Compiles : QueryAst → List Param → Type 0
  Compiles ast vs =
      (sql : Sql) × (vs' : List Param) × (compile_node ast (at vs) ≡ returned (sql, at vs'))
      × ((vals : List Param)
          → Extends vs' vals
          → Extends vs vals × (test db offset vals decimal sql e ≡ matches ast e))

  from-Tests :
      (ast : QueryAst) (vs : List Param) (p : Sql × Params)
      → compile_node ast (at vs) ≡ returned p
      → Tests (matches ast e) p vs
      → Compiles ast vs
  from-Tests ast vs (sql, params) h (same, k) = (
    sql,
    params.values,
    h ∙ ap (λ o. returned (sql, record { offset = o; values = params.values })) same,
    k,
  )

  no_str : (field : BuiltInField) → ¬ (AttributeTypeTag.str ≡ builtin_type field)
  unfolding builtin_type
  no_str BuiltInField.owner h = cc
  no_str BuiltInField.creator h = cc
  no_str BuiltInField.entity_key h = cc
  no_str BuiltInField.expires_at h = cc
  no_str BuiltInField.created_at h = cc

  pub compile_node-Compiles :
      (ast : QueryAst) → IsWellTyped ast → IsEntity e → (vs : List Param) → Compiles ast vs
  unfolding compile_node value_type
  compile_node-Compiles QueryAst.all typing good vs = (always, vs, refl, λ vals ext. (ext, refl))
  compile_node-Compiles (QueryAst.and l r) (a, b) good vs =
      let (sl, vl, el, kl) = compile_node-Compiles l a good vs in
      let (sr, vr, er, kr) = compile_node-Compiles r b good vl in
      (
        both sl sr,
        vr,
        rw (el, er, compile_node) refl,
        λ vals ext.
            let (ext1, hr) = kr vals ext in
            let (ext0, hl) = kl vals ext1 in (ext0, rw (hl, hr) refl),
      )
  compile_node-Compiles (QueryAst.or l r) (a, b) good vs =
      let (sl, vl, el, kl) = compile_node-Compiles l a good vs in
      let (sr, vr, er, kr) = compile_node-Compiles r b good vl in
      (
        either sl sr,
        vr,
        rw (el, er, compile_node) refl,
        λ vals ext.
            let (ext1, hr) = kr vals ext in
            let (ext0, hl) = kl vals ext1 in (ext0, rw (hl, hr) refl),
      )
  compile_node-Compiles (QueryAst.not a) typing good vs =
      let (s, v, h, k) = compile_node-Compiles a typing good vs in
      (
        negated s,
        v,
        rw (h, compile_node) refl,
        λ vals ext. let (ext0, h0) = k vals ext in (ext0, rw h0 refl),
      )
  compile_node-Compiles (QueryAst.compare op (builtin field) value) (t, d) good vs =
      from-Tests (QueryAst.compare op (builtin field) value) vs
        (compile_builtin field op value (at vs)) refl
        (compile_builtin-Tests field op value t d good vs)
  compile_node-Compiles (QueryAst.compare op (user name) value) (t, d) good vs =
      from-Tests (QueryAst.compare op (user name) value) vs _ refl (
        compile_exists-Tests name (value_type value) (compile_comparison op value)
          (compares op value) good vs (comparison-compiles op value d))
  compile_node-Compiles (QueryAst.starts_with (builtin field) prefix) (t, d) good vs =
      absurd (no_str field t)
  compile_node-Compiles (QueryAst.starts_with (user name) prefix) (t, d) good vs =
      from-Tests (QueryAst.starts_with (user name) prefix) vs _ refl (
        compile_exists-Tests name AttributeTypeTag.str (compile_prefix prefix) (starts prefix) good
          vs (prefix-compiles prefix d))
