-- ===== src/Sm/Transaction.antt =====
-- main/backend/sm/transaction.go: a transaction with the snapshot of those active when it began.
use wisdb.Base.{ℕ, List, Option, if◌then◌else◌, Bool, ◌==◌, false, [], ◌∷◌, none}
use wisdb.Base.{◌||◌}

pub data SmError : Type 0 where
  nil_entry cannot_sr : SmError

-- `snapshot` is a set of ids; a nil map is the empty set.
pub record Transaction : Type 0 where
  pub xid : ℕ
  pub level : ℕ
  pub snapshot : List ℕ
  pub error : Option SmError
  pub auto_abortted : Bool

unfoldable pub new_transaction : ℕ → ℕ → List ℕ → Transaction
new_transaction xid level active = record {
  xid = xid;
  level = level;
  snapshot = if level == 0 then [] else active;
  error = none;
  auto_abortted = false;
}

abbrev pub contains : List ℕ → ℕ → Bool
contains [] x = false
contains (y ∷ ys) x = y == x || contains ys x

unfoldable pub in_snap_shot : Transaction → ℕ → Bool
in_snap_shot t xid = if xid == 0 then false else contains t.snapshot xid
