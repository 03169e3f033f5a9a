-- ===== src/Sm/Visibility.antt =====
-- main/backend/sm/visibility.go: which versions a transaction sees. A version is its creator XMIN and
-- its deleter XMAX; `is_committed` is the transaction manager's answer.
pub mod Isolation
use wisdb.Sm.Transaction.{Transaction, in_snap_shot}
use wisdb.Base.{ℕ, Bool, if◌then◌else◌, ◌==◌, false, ◌&&◌, ltb, true, ◌||◌, not}

pub record Version : Type 0 where
  pub xmin : ℕ
  pub xmax : ℕ

module _ (is_committed : ℕ → Bool) where
  unfoldable pub is_version_skip : Transaction → Version → Bool
  is_version_skip t e =
      if t.level == 0
      then false
      else is_committed e.xmax && (ltb t.xid e.xmax || in_snap_shot t e.xmax)

  unfoldable pub read_committed : Transaction → Version → Bool
  read_committed t e =
      if e.xmin == t.xid && e.xmax == 0
      then true
      else if is_committed e.xmin
      then (if e.xmax == 0
          then true
          else if not (e.xmax == t.xid)
          then (if not (is_committed e.xmax) then true else false)
          else false)
      else false

  unfoldable pub repeatable_read : Transaction → Version → Bool
  repeatable_read t e =
      if e.xmin == t.xid && e.xmax == 0
      then true
      else if is_committed e.xmin && ltb e.xmin t.xid && not (in_snap_shot t e.xmin)
      then (if e.xmax == 0
          then true
          else if not (e.xmax == t.xid)
          then (if not (is_committed e.xmax) || ltb t.xid e.xmax || in_snap_shot t e.xmax
              then true
              else false)
          else false)
      else false

  unfoldable pub is_visible : Transaction → Version → Bool
  unfolding read_committed repeatable_read
  is_visible t e = if t.level == 0 then read_committed t e else repeatable_read t e
