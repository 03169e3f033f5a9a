-- ===== src/Parser/Tokener.antt =====
-- main/backend/parser/tokener.go: the tokener. A token is its bytes. The loops over the statement's
-- bytes are recursions on what is left of it, and move `position` by what they have read.
pub mod Progress
use wisdb.Base.{List, ℕ, Option, true, Bool, [], drop, ◌∷◌, none, length, some, if◌then◌else◌}
use wisdb.Base.{take, false, leb, ◌==◌, ◌||◌, ◌+◌, ◌++◌, ◌&&◌}
use Prim.Native.Nat.{min}

abbrev pub Token : Type 0
Token = List ℕ

pub record Tokener : Type 0 where
  pub stat : List ℕ
  pub position : ℕ
  pub cur_token : Token
  pub flush_token : Bool
  pub failed : Bool

unfoldable pub new_tokener : List ℕ → Tokener
new_tokener stat = record {
  stat = stat;
  position = 0;
  cur_token = [];
  flush_token = true;
  failed = false;
}

abbrev between : ℕ → ℕ → ℕ → Bool
between lo hi b = leb lo b && leb b hi

unfoldable pub is_symbol : ℕ → Bool
is_symbol b =
    b == b'>'
    || b == b'<'
    || b == b'='
    || b == b'*'
    || b == b','
    || b == b'('
    || b == b')'
    || b == b'{'
    || b == b'}'
    || b == b'!'

unfoldable pub is_alpha_beta : ℕ → Bool
is_alpha_beta b = between b'a' b'z' b || between b'A' b'Z' b

unfoldable pub is_digital : ℕ → Bool
is_digital b = between b'0' b'9' b

unfoldable pub is_blank : ℕ → Bool
is_blank b = b == 10 || b == 32 || b == 9

unfoldable pub is_word_byte : ℕ → Bool
unfolding is_alpha_beta is_digital
is_word_byte b = is_alpha_beta b || is_digital b

-- popByte, `n` times
unfoldable pub advance : Tokener → ℕ → Tokener
advance tk n = record tk { position = min (tk.position + n) (length tk.stat) }

-- What is left of the statement.
unfoldable pub rest_of : Tokener → List ℕ
rest_of tk = drop tk.position tk.stat

-- Leading blanks.
unfoldable pub blanks : List ℕ → ℕ
blanks [] = 0
blanks (b ∷ bs) = if is_blank b then blanks bs + 1 else 0

-- Leading letters and digits.
unfoldable pub word : List ℕ → Token
word [] = []
word (b ∷ bs) = if is_word_byte b then b ∷ word bs else []

-- The bytes in front of the next quote, if there is one.
unfoldable pub quoted : ℕ → List ℕ → Option Token
quoted quote [] = none
quoted quote (b ∷ bs) =
    if b == quote then some [] else elim (quoted quote bs) [ none ↦ none | some t ↦ some (b ∷ t) ]

-- The blank behind a word is read too.
abbrev pub one_blank : List ℕ → ℕ
one_blank [] = 0
one_blank (b ∷ bs) = if is_blank b then 1 else 0

unfoldable pub next_token_state : Tokener → Option Token × Tokener
next_token_state tk =
    let tmp = word (rest_of tk) in
    let tk' = advance tk (length tmp) in (some tmp, advance tk' (one_blank (rest_of tk')))

abbrev pub fail : Tokener → Option Token × Tokener
fail tk = (none, record tk { failed = true })

unfoldable pub next_quote_state : ℕ → Tokener → Option Token × Tokener
next_quote_state quote tk =
    let tk' = advance tk 1 in
    elim (quoted quote (rest_of tk')) [
      | none ↦ fail (advance tk' (length tk'.stat))
      | some tmp ↦ (some tmp, advance tk' (length tmp + 1))
    ]

abbrev pub is_quote : ℕ → Bool
is_quote b = b == 34 || b == 39

-- The token that starts with the byte.
abbrev pub token_at : List ℕ → Tokener → Option Token × Tokener
token_at [] tk = (some [], tk)
token_at (b ∷ bs) tk =
    if is_symbol b
    then (some (b ∷ []), advance tk 1)
    else if is_quote b
    then next_quote_state b tk
    else if is_word_byte b
    then next_token_state tk
    else fail tk

unfoldable pub next_meta_state : Tokener → Option Token × Tokener
next_meta_state tk = let tk' = advance tk (blanks (rest_of tk)) in token_at (rest_of tk') tk'

unfoldable pub next_token : Tokener → Option Token × Tokener
unfolding next_meta_state
next_token tk = if tk.failed then (none, tk) else next_meta_state tk

abbrev pub keep_token : Option Token × Tokener → Option Token × Tokener
keep_token (none, tk) = fail tk
keep_token (some token, tk) = (some token, record tk { cur_token = token; flush_token = false })

unfoldable pub peek : Tokener → Option Token × Tokener
unfolding next_token
peek tk =
    if tk.failed
    then (none, tk)
    else if tk.flush_token
    then keep_token (next_token tk)
    else (some tk.cur_token, tk)

unfoldable pub pop : Tokener → Tokener
pop tk = record tk { flush_token = true }

unfoldable pub err_stat : Tokener → List ℕ
err_stat tk = take tk.position tk.stat ++ (b'<' ∷ b'<' ∷ b' ' ∷ drop tk.position tk.stat)
