-- ===== src/Tests/Parsing.antt =====
-- The parser on concrete statements, and its theorems at concrete inputs.
use wisdb.Parser.Tokener.{
  Tokener, new_tokener, token_at, advance, blanks, rest_of, word, is_word_byte, quoted,
}
use wisdb.Parser.Tokener
use wisdb.Parser.Monad.{ok, err, no_fuel, unexpected_token}
use wisdb.Parser.Words.{codes}
use wisdb.Parser.Statement.{Statement}
use wisdb.Parser.Statements.{index_fields}
use wisdb.Parser.Parse.{parse}
use wisdb.Parser.Clauses
use wisdb.Parser.Select
use wisdb.Parser.Parse.Laws.{index_fields_endless}
use wisdb.Base.{List, ◌≡◌, false, ◌∷◌, ℕ, true, arith, [], refl, some, none}

abbrev drop_student : List ℕ
drop_student = codes "drop table student"

drop_student_parsed : parse drop_student ≡ ok (Statement.drop (codes "student"))
unfolding parse Tokener.peek Tokener.pop new_tokener Tokener.next_token Tokener.next_token_state
    advance blanks rest_of Tokener.is_blank Tokener.is_symbol is_word_byte word Clauses.parse_drop
drop_student_parsed = refl

abbrev begin_repeatable : List ℕ
begin_repeatable = codes "begin isolation level repeatable read"

begin_repeatable_parsed : parse begin_repeatable ≡ ok (Statement.begin true)
unfolding parse Tokener.peek Tokener.pop new_tokener Tokener.next_token Tokener.next_token_state
    advance blanks rest_of Tokener.is_blank Tokener.is_symbol is_word_byte word Clauses.parse_begin
begin_repeatable_parsed = refl

-- The tokener behind "id", the last word of an index clause that is not closed.
abbrev unclosed : Tokener
unclosed = record {
  stat = codes "table t id uint32 (index id";
  position = 27;
  cur_token = codes "id";
  flush_token = false;
  failed = false;
}

index_fields_endless_example : (index_fields 1000 (codes "id" ∷ []) unclosed).0 ≡ err no_fuel
index_fields_endless_example =
    index_fields_endless 1000 unclosed (codes "id" ∷ []) refl (omega arith)

abbrev select_some : List ℕ
select_some = codes "select count(*), name from t where id <= 5 order by name desc limit 3"

select_some_parsed :
    parse select_some
    ≡ ok (
        Statement.read (record {
          table_name = codes "t";
          fields = codes "name" ∷ [];
          aggregates = record { func = codes "count"; field = codes "*" } ∷ [];
          condition = some (record {
            single_exp1 = record { field = codes "id"; cmp_op = codes "<="; value = codes "5" };
            logic_op = [];
            single_exp2 = none;
          });
          order_by = codes "name";
          order_desc = true;
          limit = 3;
          offset = 0;
        }))
unfolding parse Tokener.peek Tokener.pop new_tokener Tokener.next_token Tokener.next_token_state
    advance blanks rest_of Tokener.is_blank Tokener.is_symbol is_word_byte word Select.parse_read
    Tokener.err_stat
select_some_parsed = refl

abbrev and_ordered : List ℕ
and_ordered = codes "select * from t where a=1 and b=2 order by a"

-- The clause order that the parser's own hint names is refused behind `and`.
and_ordered_parsed :
    parse and_ordered
    ≡ err (unexpected_token (codes "select * from t where a=1 and b=2 order << by a"))
unfolding parse Tokener.peek Tokener.pop new_tokener Tokener.next_token Tokener.next_token_state
    advance blanks rest_of Tokener.is_blank Tokener.is_symbol is_word_byte word Select.parse_read
    Tokener.err_stat
and_ordered_parsed = refl
