-- ===== src/Tm.antt =====
-- main/backend/tm: the transaction manager. The file is an eight-byte counter and a status byte for
-- each transaction; the lock makes each method one step, and writes succeed.
pub mod Status
pub mod Restart
use wisdb.Utils.IntEncoding.{parse_uuid, uint64_to_raw}
use wisdb.Base.{ℕ, File, ◌+◌, if◌then◌else◌, write_at, Bool, ◌*◌, ◌%◌, ltb, [], ◌∷◌}
use wisdb.Base.{read_at, ◌==◌, ◌-◌, ◌^◌, length, replicate, ◌>>=◌, false, true, get_elem?}
use wisdb.Base.{none, some}

abbrev pub len_xid : ℕ
len_xid = 8

abbrev pub super_xid : ℕ
super_xid = 0

abbrev pub xid_file_header_size : ℕ
xid_file_header_size = len_xid

abbrev pub xid_field_size : ℕ
xid_field_size = 1

abbrev pub field_tran_active : ℕ
field_tran_active = 0

abbrev pub field_tran_committed : ℕ
field_tran_committed = 1

abbrev pub field_tran_aborted : ℕ
field_tran_aborted = 2

pub record TransactionManager : Type 0 where
  pub file : File
  pub xid_counter : ℕ

pub data Opened : Type 0 where
  ok : TransactionManager → Opened
  bad_xid_file : Opened
  read_failed : Opened

-- The offset of a transaction's status byte. At xid 0 the 64-bit difference is -1.
unfoldable pub xid_position : ℕ → ℕ
xid_position xid = xid_file_header_size + xid * xid_field_size - 1

abbrev pub succ_xid : ℕ → ℕ
succ_xid xid = (xid + 1) % 2 ^ 64

unfoldable pub check_xid_counter : TransactionManager → Opened
unfolding xid_position parse_uuid
check_xid_counter t =
    if ltb (length t.file) xid_file_header_size
    then bad_xid_file
    else elim (read_at t.file 0 xid_file_header_size >>= parse_uuid) [
      | none ↦ read_failed
      | some counter ↦
          if xid_position (succ_xid counter) == length t.file
          then ok (record t { xid_counter = counter })
          else bad_xid_file
    ]

unfoldable pub new_transaction_manager : File → Opened
unfolding check_xid_counter
new_transaction_manager file = check_xid_counter (record { file = file; xid_counter = 0 })

unfoldable pub create : Opened
unfolding new_transaction_manager
create = new_transaction_manager (write_at [] 0 (replicate len_xid 0))

unfoldable pub open_tm : File → Opened
unfolding new_transaction_manager
open_tm file = new_transaction_manager file

unfoldable pub update_xid : TransactionManager → ℕ → ℕ → TransactionManager
unfolding xid_position
update_xid t xid status = record t { file = write_at t.file (xid_position xid) (status ∷ []) }

unfoldable pub incr_xid_counter : TransactionManager → TransactionManager
incr_xid_counter t =
    let xid = succ_xid t.xid_counter in
    record t { xid_counter = xid; file = write_at t.file 0 (uint64_to_raw xid) }

unfoldable pub begin : TransactionManager → ℕ × TransactionManager
unfolding update_xid incr_xid_counter
begin t =
    let xid = succ_xid t.xid_counter in (xid, incr_xid_counter (update_xid t xid field_tran_active))

unfoldable pub commit : TransactionManager → ℕ → TransactionManager
unfolding update_xid
commit t xid = update_xid t xid field_tran_committed

unfoldable pub abort : TransactionManager → ℕ → TransactionManager
unfolding update_xid
abort t xid = update_xid t xid field_tran_aborted

-- A status that cannot be read is no status.
unfoldable pub check_xid : TransactionManager → ℕ → ℕ → Bool
unfolding xid_position
check_xid t xid status =
    elim (read_at t.file (xid_position xid) xid_field_size >>= λ tmp. get_elem? tmp 0) [
      | none ↦ false
      | some b ↦ b == status
    ]

unfoldable pub is_active : TransactionManager → ℕ → Bool
unfolding check_xid
is_active t xid = if xid == super_xid then false else check_xid t xid field_tran_active

unfoldable pub is_committed : TransactionManager → ℕ → Bool
unfolding check_xid
is_committed t xid = if xid == super_xid then true else check_xid t xid field_tran_committed

unfoldable pub is_aborted : TransactionManager → ℕ → Bool
unfolding check_xid
is_aborted t xid = if xid == super_xid then true else check_xid t xid field_tran_aborted
