-- ===== src/Sm/Entry.antt =====
-- main/backend/sm/entry.go: a version's bytes: XMIN, XMAX and the data. `Before` and `After` of the
-- data item around the write are those of the data manager's model.
pub mod RoundTrip
use wisdb.Utils.IntEncoding.{put_uuid, parse_uuid}
use wisdb.Base.{ℕ, List, copy_at, Option, drop, replicate, slice, ◌+◌, length}

abbrev pub entry_of_xmin : ℕ
entry_of_xmin = 0

abbrev pub entry_of_xmax : ℕ
entry_of_xmax = 8

abbrev pub entry_data : ℕ
entry_data = 16

unfoldable pub wrap_entry_raw : ℕ → List ℕ → List ℕ
wrap_entry_raw xid bs =
    copy_at (put_uuid (replicate (entry_data + length bs) 0) entry_of_xmin xid) entry_data bs

unfoldable pub xmin_of : List ℕ → Option ℕ
xmin_of raw = parse_uuid (slice entry_of_xmin 8 raw)

unfoldable pub xmax_of : List ℕ → Option ℕ
xmax_of raw = parse_uuid (drop entry_of_xmax raw)

unfoldable pub entry_data_of : List ℕ → List ℕ
entry_data_of raw = drop entry_data raw

unfoldable pub set_xmax : List ℕ → ℕ → List ℕ
set_xmax raw xid = put_uuid raw entry_of_xmax xid
