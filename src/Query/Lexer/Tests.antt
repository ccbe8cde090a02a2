-- ===== src/Query/Lexer/Tests.antt =====
-- The lexer on concrete queries.
use arkiv_chain_indexer.Common.{◌≡◌, refl, false, [], ◌∷◌}
use arkiv_chain_indexer.Query.Syntax.{codes, ok, fail, TypeTag, Token, syntax_error}
use arkiv_chain_indexer.Query.Lexer.{Host, tokenize}
use arkiv_chain_indexer.Query.Ends.{Ends}
use arkiv_chain_indexer.Query.Lexer.Ends.Tokens.{token_count, tokenize-Ends}
use arkiv_chain_indexer.Common.{length}

-- No white space but ASCII's, and a digest of zeros.
abbrev pub plain_host : Host
plain_host = record { space = λ _. false; keccak_digit = λ _ _. 0 }

lex_typed :
    tokenize plain_host (codes "age >= i32 (7) -- c")
    ≡ ok (
        record { token = Token.name (codes "age"); start = 0 }
        ∷ record { token = Token.greater_equal; start = 4 }
        ∷ record { token = Token.tagged TypeTag.i32 (codes "7") 12; start = 7 }
        ∷ [])
unfolding tokenize codes
lex_typed = refl

-- `constructor` is no name: `KEYWORDS` answers for it.
lex_constructor :
    tokenize plain_host (codes "Constructor")
    ≡ ok (record { token = Token.inherited; start = 0 } ∷ [])
unfolding tokenize codes
lex_constructor = refl

lex_unterminated :
    tokenize plain_host (codes "a = 'it''s")
    ≡ fail (syntax_error 4 (codes "unterminated string literal — expected a closing '"))
unfolding tokenize codes
lex_unterminated = refl

tokenize-Ends_example :
    Ends token_count (length (codes "a = 'b' *")) (tokenize plain_host (codes "a = 'b' *"))
tokenize-Ends_example = tokenize-Ends plain_host (codes "a = 'b' *")
