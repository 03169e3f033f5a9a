-- ===== src/Dm/Page.antt =====
-- main/backend/dm/pcacher/page.go: a page in memory. Its bytes are shared with the data items that
-- point into it; the model passes the page along in place of the shared slice.
use wisdb.Base.{ℕ, ◌^◌, List, Bool, true}

abbrev pub page_size : ℕ
page_size = 2 ^ 13

pub record Page : Type 0 where
  pub pgno : ℕ
  pub bytes : List ℕ
  pub is_dirty : Bool

-- Dirty()
unfoldable pub dirty : Page → Page
dirty pg = record pg { is_dirty = true }
