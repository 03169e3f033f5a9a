-- ===== src/Tests/Recovery.antt =====
-- The data manager, its recovery and the page index at concrete inputs.
use wisdb.Dm.Logger
use wisdb.Base.{ℕ, List, [], ◌∷◌, replicate, ◌≡◌, ◌++◌, pos, some, ◌≤◌, arith}
use wisdb.Tm.{TransactionManager, is_active, check_xid}
use wisdb.Dm.DataManager.Replay.{perform, redo_transactions-perform}
use wisdb.Dm.DataManager.Ahead.{Op}
use wisdb.Dm.PageX.{px_init_raw}
use wisdb.Dm.PageX.Fso.{IsPage, px_init_raw-IsPage}
use wisdb.Dm.Recovery.{Pages, do_log}
use wisdb.Dm.Dataitem.{Dataitem, wrap_dataitem_raw, data_of}
use wisdb.Dm.Pindex.{Pindex, select, new_pindex, add, select_from, interval_of, first_interval}
use wisdb.Dm.Pindex.Room.{IsPindex, select-IsPindex, add_kept, new_pindex-IsPindex}
use wisdb.Dm.DataManager.{DataManager, insert_at, ok, read}
use wisdb.Utils.IntEncoding.{to_bytes}
use wisdb.Dm.PageX.Replay.{page, after}
use wisdb.Dm.Address.{address_to_uuid}
use wisdb.Dm.Page.{Page}
use wisdb.Dm.Recovery.Records.{insert_bytes}
use wisdb.Base.{false, inr, inl, refl, none, suc, length}
use wisdb.Dm.Recovery.{undo, redo_transactions}
use wisdb.Dm.DataManager.ReadBack.{read-insert_at, undo_insert}
use wisdb.Dm.Dataitem.RoundTrip.{item_bytes}
use wisdb.Dm.Logger.{Logger, open_log}
use wisdb.Dm.Logger.Durable.{log_all}

abbrev over : TransactionManager
over = record { file = to_bytes 8 2 ++ (1 ∷ 2 ∷ []); xid_counter = 2 }

abbrev note : List ℕ
note = 7 ∷ 8 ∷ 9 ∷ []

abbrev two_inserts : List Op
two_inserts = (1, 2, note) ∷ (2, 2, 5 ∷ []) ∷ []

abbrev fresh : List ℕ
fresh = px_init_raw

fresh-IsPage : (n : ℕ) → IsPage (page n fresh) 2
fresh-IsPage n = px_init_raw-IsPage n false

done_one : is_active over 1 ≡ false
unfolding is_active check_xid to_bytes
done_one = refl

done_two : is_active over 2 ≡ false
unfolding is_active check_xid to_bytes
done_two = refl

redo_transactions-perform_example :
    (logs : List (List ℕ)) × (pc : Pages) × (lg : Logger) × (perform two_inserts
        (fresh ∷ fresh ∷ [])
      ≡ some (logs, pc))
    × (open_log (log_all Logger.create logs).file ≡ Logger.ok lg)
    × (redo_transactions (suc (length lg.file)) over lg (fresh ∷ after fresh 2 note ∷ []) ≡ some pc)
redo_transactions-perform_example =
    redo_transactions-perform over two_inserts (fresh ∷ fresh ∷ [])
      (fresh ∷ after fresh 2 note ∷ []) (omega arith)
      (
        omega arith,
        done_one,
        omega arith,
        omega arith,
        (omega arith, done_two, omega arith, omega arith, tt),
      )
      (
        refl,
        (
          (
            2,
            fresh-IsPage 2,
            (omega arith, omega arith, (omega arith, omega arith, tt)),
            inr (inl refl),
          ),
          tt,
        ),
      )

-- An item of one byte behind three bytes of header.
abbrev stored : Dataitem
stored = record { oldraw = 0 ∷ 0 ∷ 1 ∷ 6 ∷ []; offset = 2; len = 4; uid = address_to_uuid 2 2 }

-- Page 7 has 8000 bytes of free space.
abbrev one_page : Pindex
one_page = record { lists = replicate 39 [] ++ (((7, pos 8000) ∷ []) ∷ ([] ∷ [])) }

one_page-IsPindex : IsPindex one_page
one_page-IsPindex =
    add_kept new_pindex 7 8000 one_page new_pindex-IsPindex (omega arith)
      (unfold add interval_of new_pindex in refl)

select-IsPindex_example :
    IsPindex (record { lists = replicate 41 [] }) × ((n : ℕ) × (pos 8000 ≡ pos n) × (100 ≤ n))
select-IsPindex_example =
    select-IsPindex one_page 100 (7, pos 8000) (record { lists = replicate 41 [] })
      one_page-IsPindex (omega arith) (unfold select select_from first_interval in refl)

abbrev base : DataManager
base = record { pc = fresh ∷ fresh ∷ []; lg = Logger.create; pidx = new_pindex }

read-insert_at_example :
    (dm' : DataManager) × (pg : Page) × (di : Dataitem) × (insert_at base 3
        (wrap_dataitem_raw note)
        (2, pos 8190)
      ≡ some (ok (address_to_uuid 2 2), dm'))
    × (read dm' (address_to_uuid 2 2) ≡ some (ok (some (pg, di))))
    × (data_of pg di ≡ some note)
    × IsPindex dm'.pidx
    × (dm'.lg ≡ Logger.log Logger.create (insert_bytes 3 2 2 (item_bytes 0 note)))
read-insert_at_example =
    read-insert_at base 3 1 2 fresh note (pos 8190) (omega arith) refl (fresh-IsPage 2)
      (omega arith) (omega arith) new_pindex-IsPindex

undo_insert_example :
    (pc : Pages) × (do_log base.pc (insert_bytes 3 2 100 (item_bytes 0 note)) undo ≡ some pc)
    × (read (record base { pc = pc }) (address_to_uuid 2 100) ≡ some (ok none))
undo_insert_example =
    undo_insert base 3 1 2 100 fresh note (omega arith) (omega arith) refl (fresh-IsPage 2)
      (omega arith) (omega arith) (omega arith)

-- A page with less room than is asked for, from the last interval but one.
short_of_room :
    select (record { lists = replicate 40 [] ++ (((2, pos 8170) ∷ []) ∷ []) }) 8190
    ≡ some ((2, pos 8170), record { lists = replicate 41 [] })
unfolding select select_from first_interval
short_of_room = refl
