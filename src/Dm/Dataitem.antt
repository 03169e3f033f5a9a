-- ===== src/Dm/Dataitem.antt =====
-- main/backend/dm/data_item.go: a data item is a window of a page: a valid flag, a 16-bit size and
-- the data. The Go value shares the page's bytes; here the page goes beside it. The read-write lock
-- is not modelled: `before`, `un_before` and `after` are what runs while it is held.
pub mod RoundTrip
pub mod Undo
use wisdb.Dm.Page.{Page, dirty}
use wisdb.Dm.Address.{address_to_uuid}
use wisdb.Utils.IntEncoding.{put_uint16, get_uint16}
use wisdb.Base.{ℕ, List, Option, copy, copy_at, replicate, if◌then◌else◌, slice}
use wisdb.Base.{Bool, take, ◌+◌, ltb, length, ◌%◌, ◌^◌, ◌>>=◌, ◌>>◌, bounds, get_elem?}
use wisdb.Base.{some, leb, set, drop, ◌==◌}

abbrev pub of_valid_flag : ℕ
of_valid_flag = 0

abbrev pub of_data_size : ℕ
of_data_size = 1

abbrev pub of_data : ℕ
of_data = 3

-- `raw` is pg.Data()[offset : offset+len].
pub record Dataitem : Type 0 where
  pub offset : ℕ
  pub len : ℕ
  pub oldraw : List ℕ
  pub uid : ℕ

unfoldable pub wrap_dataitem_raw : List ℕ → List ℕ
wrap_dataitem_raw bs =
    let raw = put_uint16 (replicate (of_data + length bs) 0) of_data_size (length bs % 2 ^ 16) in
    copy_at raw of_data bs

-- raw[_OF_VALID_FLAG] = 1
unfoldable pub invalid_raw_dataitem : List ℕ → Option (List ℕ)
invalid_raw_dataitem raw = do
  bounds (ltb of_valid_flag (length raw))
  some (set raw of_valid_flag 1)

-- The size field may point past the page: the item is cut there.
unfoldable pub cut : ℕ → ℕ → ℕ
cut len room = if ltb room len then room else len

unfoldable pub parse_dataitem : Page → ℕ → Option Dataitem
unfolding cut
parse_dataitem pg offset = do
  bounds (leb offset (length pg.bytes))
  let raw = drop offset pg.bytes
  bounds (leb of_data_size (length raw))
  size ← get_uint16 (drop of_data_size raw)
  let len = cut (of_data + size) (length raw)
  some (record {
    offset = offset;
    len = len;
    oldraw = replicate len 0;
    uid = address_to_uuid pg.pgno offset;
  })

-- di.raw
unfoldable pub raw_of : Page → Dataitem → List ℕ
raw_of pg di = slice di.offset di.len pg.bytes

unfoldable pub is_valid : Page → Dataitem → Option Bool
is_valid pg di = do flag ← get_elem? (raw_of pg di) of_valid_flag; some (flag == 0)

unfoldable pub data_of : Page → Dataitem → Option (List ℕ)
data_of pg di = do bounds (leb of_data (length (raw_of pg di))); some (drop of_data (raw_of pg di))

-- Before(): the page is marked and the bytes are saved.
unfoldable pub before : Page → Dataitem → Page × Dataitem
unfolding dirty
before pg di = (dirty pg, record di { oldraw = copy di.oldraw (raw_of pg di) })

-- UnBefore(): the saved bytes are copied back.
unfoldable pub un_before : Page → Dataitem → Page
un_before pg di = record pg { bytes = copy_at pg.bytes di.offset (take di.len di.oldraw) }
