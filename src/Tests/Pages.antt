-- ===== src/Tests/Pages.antt =====
-- Pages, addresses and data items at concrete inputs.
use wisdb.Dm.Page.{Page, page_size}
use wisdb.Dm.PageX.{px_init_raw, px_insert, px_free_space, px_recover_insert, px_raw_fso}
use wisdb.Dm.PageX.Fso.{
  IsPage, px_init_raw-IsPage, length-px_raw_update_fso, px_raw_fso-px_raw_update_fso,
}
use wisdb.Dm.PageX.Insert.{px_insert_lem, inserted, inserted-IsPage}
use wisdb.Dm.PageX.Redo.{px_recover_insert-px_insert}
use wisdb.Dm.PageX.Recover.{px_recover_insert_garbage}
use wisdb.Dm.Dataitem.{Dataitem}
use wisdb.Dm.Address.{uuid_to_address, address_to_uuid}
use wisdb.Dm.Address.RoundTrip.{address_to_uuid-uuid_to_address}
use wisdb.Dm.PageX.{px_raw_update_fso}
use wisdb.Base.{false, List, ◌≡◌, arith, slice, replicate, length, ◌∷◌}
use wisdb.Base.{ℕ, some, [], true, pos, ◌∙◌, inr, length-replicate}

abbrev fresh_page : Page
fresh_page = record { pgno = 2; bytes = px_init_raw; is_dirty = false }

fresh_page-IsPage : IsPage fresh_page 2
fresh_page-IsPage = px_init_raw-IsPage 2 false

abbrev item : List ℕ
item = 7 ∷ 8 ∷ 9 ∷ []

abbrev after_item : Page
after_item = inserted fresh_page 2 item

px_insert_lem_example :
    (pg' : Page) × (px_insert fresh_page item ≡ some (pg', 2))
    × IsPage pg' 5
    × (slice 2 3 pg'.bytes ≡ item)
    × (px_free_space pg' ≡ some (pos 8187))
    × (pg'.pgno ≡ 2)
    × (pg'.is_dirty ≡ true)
px_insert_lem_example = px_insert_lem fresh_page 2 item fresh_page-IsPage (omega arith)

after_item-IsPage : IsPage after_item 5
after_item-IsPage = inserted-IsPage fresh_page 2 item fresh_page-IsPage (omega arith)

px_recover_insert-px_insert_example :
    (pg' : Page) × (px_insert fresh_page item ≡ some (pg', 2))
    × (px_recover_insert fresh_page 2 item ≡ some pg')
    × (px_recover_insert pg' 2 item ≡ some pg')
px_recover_insert-px_insert_example =
    px_recover_insert-px_insert fresh_page 2 item fresh_page-IsPage (omega arith) (omega arith)

-- The free space offset of a crashed page: 0xFFFF.
abbrev garbage_page : Page
garbage_page = record {
  pgno = 2;
  bytes = px_raw_update_fso (replicate page_size 0) 65535;
  is_dirty = false;
}

garbage_page_long : length garbage_page.bytes ≡ page_size
garbage_page_long =
    length-px_raw_update_fso (replicate page_size 0) 65535 ∙ length-replicate {A = ℕ} page_size 0

garbage_page_fso : px_raw_fso garbage_page.bytes ≡ some 65535
garbage_page_fso =
    px_raw_fso-px_raw_update_fso (replicate page_size 0) 65535
      (omega (arith, length-replicate {A = ℕ} page_size 0)) (omega arith)

px_recover_insert_garbage_example :
    (pg' : Page) × (px_recover_insert garbage_page 2 item ≡ some pg')
    × (px_raw_fso pg'.bytes ≡ some 65535)
px_recover_insert_garbage_example =
    px_recover_insert_garbage garbage_page 65535 2 item garbage_page_long garbage_page_fso
      (inr (omega arith)) (omega arith) (omega arith)

abbrev small_page : Page
small_page = record { pgno = 3; bytes = 0 ∷ 0 ∷ 1 ∷ 0 ∷ 3 ∷ 7 ∷ 8 ∷ 9 ∷ 4 ∷ []; is_dirty = false }

abbrev small_item : Dataitem
small_item = record { offset = 2; len = 6; oldraw = replicate 6 0; uid = 0 }

address_to_uuid-uuid_to_address_example :
    address_to_uuid (uuid_to_address 12884902403).0 (uuid_to_address 12884902403).1 ≡ 12884902403
address_to_uuid-uuid_to_address_example =
    address_to_uuid-uuid_to_address 12884902403 (omega arith) (omega arith)

abbrev mark : List ℕ
mark = b'a' ∷ b'b' ∷ b'c' ∷ b'd' ∷ b'e' ∷ b'f' ∷ b'g' ∷ b'h' ∷ []
