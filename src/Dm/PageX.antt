-- ===== src/Dm/PageX.antt =====
-- main/backend/dm/pageX.go: an ordinary page is a free space offset (FSO) and data behind it.
-- `none` is a panic: a slice bound past the end of the page.
pub mod Fso
pub mod Insert
pub mod Recover
pub mod Redo
pub mod Replay
use wisdb.Base.{ℕ, ◌+◌, ◌-◌, ◌%◌, ◌^◌, List, Option, none, some, Bool, ◌||◌, true}
use wisdb.Base.{ltb, leb, if◌then◌else◌, length, replicate, copy_at, bounds, ◌>>=◌, ◌>>◌}
use wisdb.Base.{ℤ, sub_ℕ, map, drop}
use wisdb.Dm.Address.{put_offset, parse_offset}
use wisdb.Dm.Page.{Page, page_size, dirty}

abbrev pub px_of_free : ℕ
px_of_free = 0

abbrev pub px_of_data : ℕ
px_of_data = 2

unfoldable pub px_raw_update_fso : List ℕ → ℕ → List ℕ
unfolding put_offset
px_raw_update_fso raw offset = put_offset raw px_of_free offset

unfoldable pub px_init_raw : List ℕ
unfolding px_raw_update_fso
px_init_raw = px_raw_update_fso (replicate page_size 0) px_of_data

unfoldable pub px_max_free_space : ℕ
px_max_free_space = page_size - px_of_data

unfoldable pub px_raw_fso : List ℕ → Option ℕ
unfolding parse_offset
px_raw_fso raw = parse_offset (drop px_of_free raw)

unfoldable pub px_fso : Page → Option ℕ
unfolding px_raw_fso
px_fso pg = px_raw_fso pg.bytes

-- copy(pg.Data()[offset:], raw)
unfoldable pub copy_into : Page → ℕ → List ℕ → Option Page
copy_into pg offset raw = do
  bounds (leb offset (length pg.bytes))
  some (record pg { bytes = copy_at pg.bytes offset raw })

-- The sum of offsets is a 16-bit sum.
abbrev pub add_offset : ℕ → ℕ → ℕ
add_offset a b = (a + b) % 2 ^ 16

unfoldable pub px_insert : Page → List ℕ → Option (Page × ℕ)
unfolding copy_into dirty
px_insert pg raw = do
  offset ← px_raw_fso pg.bytes
  pg' ← copy_into (dirty pg) offset raw
  some (
    record pg' { bytes = px_raw_update_fso pg'.bytes (add_offset offset (length raw % 2 ^ 16)) },
    offset,
  )

unfoldable pub px_free_space : Page → Option ℤ
unfolding px_raw_fso
px_free_space pg = do fso ← px_raw_fso pg.bytes; some (sub_ℕ page_size fso)

unfoldable pub px_recover_update : Page → ℕ → List ℕ → Option Page
unfolding copy_into dirty
px_recover_update pg offset raw = copy_into (dirty pg) offset raw

-- The check of the offset that is on disk: out of the page, it is replaced by the log's.
unfoldable pub checked_fso : ℕ → ℕ → ℕ
checked_fso current log_fso =
    if ltb current px_of_data || ltb page_size current then log_fso else current

unfoldable pub px_recover_insert : Page → ℕ → List ℕ → Option Page
unfolding copy_into dirty
px_recover_insert pg offset raw = do
  pg' ← copy_into (dirty pg) offset raw
  let log_fso = add_offset offset (length raw % 2 ^ 16)
  current ← px_raw_fso pg'.bytes
  some (
      if ltb (checked_fso current log_fso) log_fso
      then record pg' { bytes = px_raw_update_fso pg'.bytes log_fso }
      else pg')
