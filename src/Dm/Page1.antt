-- ===== src/Dm/Page1.antt =====
-- main/backend/dm/page1.go: the first page carries two windows of eight bytes, which agree exactly
-- after an orderly close. The random bytes of `utils.RandBytes` are an argument.
pub mod ValidCheck
use wisdb.Dm.Page.{Page, page_size, dirty}
use wisdb.Base.{ℕ, List, Bool, copy_at, replicate, bytes_equal, take, ◌+◌, slice}

abbrev pub p1_of_vc : ℕ
p1_of_vc = 100

abbrev pub p1_len_vc : ℕ
p1_len_vc = 8

unfoldable pub p1_raw_set_vc_open : List ℕ → List ℕ → List ℕ
p1_raw_set_vc_open fresh raw = copy_at raw p1_of_vc (take p1_len_vc fresh)

unfoldable pub p1_init_raw : List ℕ → List ℕ
unfolding p1_raw_set_vc_open
p1_init_raw fresh = p1_raw_set_vc_open fresh (replicate page_size 0)

unfoldable pub p1_raw_set_vc_close : List ℕ → List ℕ
p1_raw_set_vc_close raw = copy_at raw (p1_of_vc + p1_len_vc) (slice p1_of_vc p1_len_vc raw)

unfoldable pub p1_raw_check_vc : List ℕ → Bool
p1_raw_check_vc raw =
    bytes_equal (slice p1_of_vc p1_len_vc raw) (slice (p1_of_vc + p1_len_vc) p1_len_vc raw)

unfoldable pub p1_set_vc_open : List ℕ → Page → Page
unfolding dirty
p1_set_vc_open fresh pg = record (dirty pg) { bytes = p1_raw_set_vc_open fresh (dirty pg).bytes }

unfoldable pub p1_set_vc_close : Page → Page
unfolding dirty
p1_set_vc_close pg = record (dirty pg) { bytes = p1_raw_set_vc_close (dirty pg).bytes }

unfoldable pub p1_check_vc : Page → Bool
unfolding p1_raw_check_vc
p1_check_vc pg = p1_raw_check_vc pg.bytes
