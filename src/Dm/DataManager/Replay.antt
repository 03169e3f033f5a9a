-- ===== src/Dm/DataManager/Replay.antt =====
-- After a crash: the redo of the records of finished transactions' inserts, from pages of which each
-- was written to the file at its own time.
use wisdb.Dm.Logger
use wisdb.Dm.DataManager.{insert_page}
use wisdb.Dm.Recovery.{
  Pages, get_page, put_page, do_insert_log, redo_logs, do_log, is_insert_log, log_xid,
}
use wisdb.Dm.Recovery.Records.{insert_bytes, insert_log-eq, parse_insert_log-eq}
use wisdb.Dm.Page.{Page, page_size}
use wisdb.Dm.PageX.Fso.{IsPage}
use wisdb.Dm.PageX.{px_fso, px_recover_insert}
use wisdb.Dm.PageX.Insert.{px_insert-eq, inserted}
use wisdb.Dm.PageX.Replay.{page, after, after-IsPage, replay_step}
use wisdb.Tm.{TransactionManager, is_active}
use wisdb.Base.{ℕ, List, Option, ◌∷◌, [], ◌<◌, some, ◌≡◌, ◌+◌}
use wisdb.Base.{◌>>=◌, false, get_elem?, set, refl, arith, suc, zero, All}
use wisdb.Base.{◌^◌, length, ap, ◌≤◌, get_elem?-some}
use wisdb.Dm.Recovery.{redo, redo_transactions, all_logs}
use wisdb.Base.{length-set, ◌∙◌}
use wisdb.Dm.Logger.{Logger, open_log, remaining, rewind}
use wisdb.Dm.Logger.Frame.{IsRecord}
use wisdb.Dm.Logger.Durable.{log_all}
use wisdb.Dm.Logger.Restart.{remaining-log_all}
use wisdb.Dm.Recovery.Records.{length-insert_bytes}
use wisdb.Dm.DataManager.Ahead.{Op, AllAhead, target, AllAhead-done, raws_of, Ahead-version}
use wisdb.Dm.DataManager.Ahead.{advance}

-- Inserts one behind the other, and their records.
unfoldable pub perform : List Op → Pages → Option (List (List ℕ) × Pages)
unfolding insert_page put_page
perform [] pc = some ([], pc)
perform ((xid, pgno, raw) ∷ ops) pc = do
  (log, offset, pg') ← insert_page pc xid pgno raw
  (logs, pc') ← perform ops (put_page pc pg')
  some (log ∷ logs, pc')

pub insert_page-eq :
    (bs : Pages) (xid i fso : ℕ) (b raw : List ℕ)
    → get_elem? bs i ≡ some b
    → IsPage (page (suc i) b) fso
    → fso + length raw ≤ page_size
    → insert_page bs xid (suc i) raw
      ≡ some (insert_bytes xid (suc i) fso raw, fso, inserted (page (suc i) b) fso raw)
unfolding insert_page get_page px_fso
insert_page-eq bs xid i fso b raw found v fits =
    rw
      (
        found,
        insert_log-eq xid (page (suc i) b) fso raw v.at_fso,
        px_insert-eq (page (suc i) b) fso raw v fits,
      )
      refl

-- What a record's redo does to the pages, where the page is there.
module _ (xid i fso : ℕ) (raw : List ℕ) (hx : xid < 2 ^ 64) (hp : suc i < 2 ^ 32)
    (hf : fso < 2 ^ 16) where
  abbrev record_of : List ℕ
  record_of = insert_bytes xid (suc i) fso raw

  log_xid-record : log_xid record_of ≡ some xid
  unfolding log_xid is_insert_log
  log_xid-record = rw (parse_insert_log-eq xid (suc i) fso raw hx hp hf) refl

  do_log-record :
      (ds : Pages) (d : List ℕ) (pg' : Page)
      → get_elem? ds i ≡ some d
      → px_recover_insert (page (suc i) d) fso raw ≡ some pg'
      → pg'.pgno ≡ suc i
      → do_log ds record_of redo ≡ some (set ds i pg'.bytes)
  unfolding do_log do_insert_log is_insert_log get_page put_page
  do_log-record ds d pg' found made number =
      rw (parse_insert_log-eq xid (suc i) fso raw hx hp hf, found, made, number)
        (ap (λ k. some (set ds k pg'.bytes)) (omega arith))

-- One insert and the redo of its record: the inserts behind it start from pages that are as long,
-- and the file still holds versions.
step :
    (xid i : ℕ) (raw : List ℕ) (ops : List Op) (bs ds : Pages)
    → xid < 2 ^ 64
    → suc i < 2 ^ 32
    → i < length bs
    → AllAhead 1 ((xid, suc i, raw) ∷ ops) bs ds
    → (log : List ℕ) × (bs' : Pages) × (ds' : Pages) × (perform ((xid, suc i, raw) ∷ ops) bs
        ≡ (perform ops bs' >>= λ r. some (log ∷ r.0, r.1)))
      × (log_xid log ≡ some xid)
      × (do_log ds log redo ≡ some ds')
      × (length bs' ≡ length bs)
      × AllAhead 1 ops bs' ds'
      × IsRecord log
unfolding perform put_page
step xid i raw ops bs ds hx hp inside a =
    let (b, found) = get_elem?-some bs i inside in
    let (d, on_disk, ahead) = target xid (suc i) raw ops 1 i bs ds b (omega arith) a found in
    let (fso, v, fit, ver) = ahead in
    let (pg', made, number, ver') =
      replay_step (suc i) b fso raw (raws_of (suc i) ops) d v fit ver in
    let b' = after b fso raw in
    let next =
      Ahead-version (suc i) b' (fso + length raw) (raws_of (suc i) ops) pg'.bytes
        (after-IsPage (suc i) b fso raw v fit.1) fit.2 ver' in
    (
      insert_bytes xid (suc i) fso raw,
      set bs i b',
      set ds i pg'.bytes,
      rw (insert_page-eq bs xid i fso b raw found v fit.1) (
          ap
            (λ k.
              perform ops (set bs k b') >>= λ r. some (insert_bytes xid (suc i) fso raw ∷ r.0, r.1))
            (omega arith)),
      log_xid-record xid i fso raw hx hp (omega (arith, v.in_page)),
      do_log-record xid i fso raw hx hp (omega (arith, v.in_page)) ds d pg' on_disk made number,
      length-set bs i b',
      advance xid (suc i) raw ops 1 i bs ds b' pg'.bytes (omega arith) a next,
      (
        omega (arith, length-insert_bytes xid (suc i) fso raw),
        omega (arith, length-insert_bytes xid (suc i) fso raw, fit.1),
      ),
    )

-- Inserts of transactions that are over at the crash, into pages that are there.
abbrev pub AllOver : TransactionManager → ℕ → List Op → Type 0
AllOver tm n [] = Unit {0}
AllOver tm n ((xid, pgno, raw) ∷ ops) =
    (xid < 2 ^ 64) × (is_active tm xid ≡ false) × (0 < pgno) × (pgno ≤ n) × AllOver tm n ops

redo_logs-perform :
    (tm : TransactionManager) (ops : List Op) (bs ds : Pages)
    → length bs < 2 ^ 32
    → AllOver tm (length bs) ops
    → AllAhead 1 ops bs ds
    → (logs : List (List ℕ)) × (pc : Pages) × (perform ops bs ≡ some (logs, pc))
      × (redo_logs tm logs ds ≡ some pc)
      × All IsRecord logs
unfolding perform redo_logs
redo_logs-perform tm [] bs ds small over a = ([], bs, refl, ap some (AllAhead-done 1 bs ds a), tt)
redo_logs-perform tm ((xid, zero, raw) ∷ ops) bs ds small over a = absurd (omega (arith, over.2))
redo_logs-perform tm ((xid, suc i, raw) ∷ ops) bs ds small over a =
    let (log, bs', ds', made, named, redone, len, a', rec) =
      step xid i raw ops bs ds over.0 (omega (arith, over.3)) (omega (arith, over.3)) a in
    let rest = redo_logs-perform tm ops bs' ds' (omega (arith, len)) (rw len over.4) a' in
    (
      log ∷ rest.0,
      rest.1,
      made ∙ ap (λ p. p >>= λ (r : List (List ℕ) × Pages). some (log ∷ r.0, r.1)) rest.2,
      rw (named, over.1, redone) rest.3,
      (rec, rest.4),
    )

redo_transactions-eq :
    (fuel : ℕ) (tm : TransactionManager) (lg : Logger) (logs : List (List ℕ)) (ds : Pages)
    → remaining fuel (rewind lg) ≡ Logger.ok logs
    → redo_transactions fuel tm lg ds ≡ redo_logs tm logs ds
unfolding redo_transactions all_logs
redo_transactions-eq fuel tm lg logs ds e = rw (redo_transactions, all_logs, e) refl

-- Items are inserted into pages, all by transactions that are over at the crash, and each insert's
-- record is logged. The crash finds in the file of every page any of its versions, from before the
-- first insert to after the last, each page at its own time. Then all inserts had succeeded, the
-- log is opened again, and the redo of its records succeeds and gives exactly the pages that the
-- inserts had given. The items are not empty and fit their pages.
pub redo_transactions-perform :
    (tm : TransactionManager) (ops : List Op) (bs ds : Pages)
    → length bs < 2 ^ 32
    → AllOver tm (length bs) ops
    → AllAhead 1 ops bs ds
    → (logs : List (List ℕ)) × (pc : Pages) × (lg : Logger) × (perform ops bs ≡ some (logs, pc))
      × (open_log (log_all Logger.create logs).file ≡ Logger.ok lg)
      × (redo_transactions (suc (length lg.file)) tm lg ds ≡ some pc)
redo_transactions-perform tm ops bs ds small over a =
    let (logs, pc, made, redone, records) = redo_logs-perform tm ops bs ds small over a in
    let (lg, opened, is, back) = remaining-log_all logs records in
    (
      logs,
      pc,
      lg,
      made,
      opened,
      redo_transactions-eq (suc (length lg.file)) tm lg logs ds back ∙ redone,
    )
