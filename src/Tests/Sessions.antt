-- ===== src/Tests/Sessions.antt =====
-- A connection over a table manager that counts its transactions.
use wisdb.Base.{ℕ, List, ◌∷◌, [], none, some, ◌≡◌, ◌≢◌, suc, All, refl, true, false}
use wisdb.Server.{TableManager, Executor, close, execute_all}
use wisdb.Server.Sessions.{recorded, left_open, ends, close-execute_all}
use wisdb.Parser.Words.{codes}
use wisdb.Parser.Parse.{parse}
use wisdb.Parser.Tokener
use wisdb.Parser.Clauses

-- Its Commit fails, and its statements are done.
abbrev manager : TableManager ℕ
manager = record {
  begin = λ n r. (suc n, [], suc n);
  commit = λ n x. (none, n);
  abort = λ n x. ([], n);
  run = λ n x stat. (some [], n);
}

abbrev texts : List (List ℕ)
texts = codes "begin" ∷ (codes "show" ∷ (codes "commit" ∷ []))

texts_end : All (λ sql. ends sql ≡ true) texts
unfolding ends parse Tokener.peek Tokener.new_tokener Tokener.rest_of Tokener.advance Tokener.blanks
    Tokener.is_blank Tokener.is_symbol Tokener.is_word_byte Tokener.next_token_state Tokener.word
    Clauses.parse_begin Tokener.pop Clauses.parse_show Clauses.parse_commit
texts_end = (refl, (refl, (refl, tt)))

close-execute_all_example :
    (e' : Executor (recorded manager)) × (execute_all
        (recorded manager)
        (record { xid = 0; st = (7, []) })
        texts
      ≡ some e')
    × ((y : ℕ) → y ≢ 0 → left_open (close (recorded manager) e').1 y ≡ false)
close-execute_all_example = close-execute_all manager 7 texts texts_end
