-- ===== src/Tests/SourceExamples.antt =====
-- The theorems on places and on comments at concrete inputs.
use lacsap.Prelude.{◌||◌, ◌≡◌, ◌++◌, ◌∷◌, refl, arith, codes, false}
use lacsap.Outcome.{done}
use lacsap.Source.{open_source}
use lacsap.Source.Lines.{read, Placed, read-open_source}
use lacsap.Token.{Standard, token_table}
use lacsap.Lexer.{Lexer, convert_uint64, skip_brace, get_token, where_is}
use lacsap.Lexer.Comments.{Stands, skip_brace-Stands, unknown_at, get_token-adjacent}
use lacsap.Lexer.Digits.{place_value, convert_uint64-place_value}
use lacsap.Tests.Samples.{no_strtod}

read-open_source_example :
    Placed
      (codes "ab\nc")
      (codes "d")
      (open_source (codes "a.pas") (codes "ab\nc" ++ codes "d"))
      (read (codes "ab\nc") (open_source (codes "a.pas") (codes "ab\nc" ++ codes "d")))
read-open_source_example =
    read-open_source (codes "a.pas") (codes "ab\nc") (codes "d") (omega arith)

-- The lexer at a brace
abbrev comment : Lexer
comment = record {
  source = open_source (codes "a.pas") (codes "note" ++ b'}' ∷ b'{' ∷ codes "x}");
  cur = b'{';
  next = 0;
  cur_valid = 1;
  erange = false;
}

comment-Stands : Stands b'{' (codes "note" ++ b'}' ∷ b'{' ∷ codes "x}") comment
unfolding open_source
comment-Stands = record { cur = refl; input = refl; valid = refl }

skip_brace-Stands_example :
    (lx' : Lexer) × (skip_brace 5 comment ≡ done lx') × Stands b'{' (codes "x}") lx'
skip_brace-Stands_example =
    skip_brace-Stands (codes "note") (codes "x}") b'{' 5 comment comment-Stands refl (omega arith)

get_token-adjacent_example :
    (lx' : Lexer) × (get_token no_strtod (token_table Standard.none_std) 5 comment
      ≡ done (unknown_at (where_is comment), lx'))
    × Stands b'{' (codes "x}") lx'
get_token-adjacent_example =
    get_token-adjacent no_strtod (token_table Standard.none_std) (codes "note") (codes "x}") 5
      comment comment-Stands refl (omega arith)

convert_uint64-place_value_example : convert_uint64 (b'f' ∷ codes "F1") 16 comment ≡ (
  place_value 16 (b'f' ∷ codes "F1"),
  false,
  record comment { erange = comment.erange || false },
)
unfolding place_value
convert_uint64-place_value_example =
    convert_uint64-place_value 16 b'f' (codes "F1") comment (omega arith) refl (omega arith)
