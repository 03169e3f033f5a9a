-- ===== src/Lib.antt =====
-- WisDB: the storage engine of a small transactional database in Go. A server parses statements and
-- runs them on tables; tables are entries under an index; entries are versions with the ids of the
-- transactions that made and deleted them; versions are data items on pages, whose changes are logged.
--
-- What is modelled, by the file of src/main/backend that it models:
--   Utils.IntEncoding   utils/int_encoding.go, utils/types.go    big-endian integers and UUIDs
--   Dm.Address          dm/types.go                              UUID2Address, Address2UUID
--   Dm.Page, Dm.PageX   dm/pageX.go, dm/pcacher/page.go          PXInsert, PXRecoverInsert and the free
--                                                                space offset
--   Dm.Page1            dm/page1.go                              the valid check of the first page
--   Dm.Dataitem         dm/data_item.go                          wrapping, parsing, Before, UnBefore
--   Dm.Logger           dm/logger/logger.go                      the log file; Log, Next, Open
--   Dm.Pindex           dm/pindex/pindex.go                      Add, Select
--   Dm.Recovery         dm/recovery.go                           the records, redo, undo, Recovery
--   Dm.DataManager      dm/data_manager.go                       Insert, Read, Open, Close over all these
--   Tm                  tm/transaction_manager.go, tm/xid.go     the status of each transaction
--   Sm.Transaction      sm/transaction.go                        snapshots
--   Sm.Visibility       sm/visibility.go                         the two isolation levels
--   Sm.Entry            sm/entry.go                              XMIN, XMAX and the data of a version
--   Sm.Manager          sm/serializability_manager.go           Begin, Read, Insert, Delete, Commit, Abort
--   Sm.LockTable        sm/locktable/lock_table.go               Add, Remove, the deadlock search
--   Utils.StrEncoding   utils/str_encoding.go                    texts with their length, and hashes
--   Im.Node             im/node.go                              a node of an index tree as bytes
--   Im.Tree, Im.Store   im/tree.go, im/node.go                  Create, Load, Insert, Search, SearchRange
--   Tbm.Field           tbm/field.go                             values, and the ranges of CalExp
--   Tbm.Table           tbm/table.go                             rows, conditions, limits, aggregates
--   Tbm.Stored          tbm/table.go, tbm/field.go              the entries of tables and fields
--   Tbm.Access          tbm/table.go                            Insert, Update, Delete, Read over storage
--   Tbm.Creation        tbm/table.go, tbm/field.go              CreateTable, LoadTable and their fields
--   Tbm.Manager         tbm/table_manager.go                    the tables by name and their chain
--   Parser.Tokener      parser/tokener.go                        Peek, Pop
--   Parser.*            parser/parser.go, parser/statement       Parse and the statements
--   Server              server/executor.go                       Execute, Close, over a table manager
--   Transporter         ../transporter/wire*.go                  the frames of the wire protocol
-- Types and operations keep the source's names in this spelling: PXInsert is `px_insert`. A Go method
-- is a function of its receiver's record that returns the changed record. A module below one of these
-- holds its proofs, Base what they share, and Tests concrete inputs.
--
-- Bytes are numbers, and a file is its list of bytes with the operations of Base.Disk; reads beyond
-- its end fail, and writes succeed. Unsigned integers wrap where the source's do. A Go panic, an error
-- from the file or a failed assertion is `none` or an error value. Where the code holds a mutex for a
-- whole method, the method is one step. Fuel: the log is walked with as much fuel as the file has
-- bytes and one more, since each record is at least eight; a parser's loop has as much as the
-- statement has bytes and one more, since each round reads a token, except at the statement's end;
-- the deadlock search has as much as there are waiting transactions and two more, since each step
-- stamps one of them.
--
-- Pages are a list, page 1 first, as the page cacher shows them to everyone who gets them.
--
-- A text is its bytes. strconv.ParseUint and Go's decoding of runes are arguments; of the former it is
-- assumed that a number that it returns has the bits that were asked for.
--
-- The trees of the index manager are functions of a state under an interface of the data manager; what
-- that does in the state at hand is a hypothesis of the theorem that needs it. Their loops take fuel:
-- one round for each node of a level.
--
-- Tables use the serializability manager and the indices through an interface, and a connection uses
-- the table manager through one. Where a theorem is about what was called, the interface is one that
-- records the calls. sort.Slice is an argument.
--
-- Execute has no result where the parse runs out of its fuel. The loop of removeFromList has a round
-- for each element of the queue and one more; the theorem on it is for any number of rounds.
--
-- Not modelled: the reference counts of the cachers and what they write when, the order that Read gives
-- its rows and the texts that it, Show and the answers print; the sockets, the terminal and the command
-- line, which are input and output.
pub mod Base
pub mod Utils
pub mod Dm
pub mod Tm
pub mod Tbm
pub mod Im
pub mod Sm
pub mod Parser
pub mod Server
pub mod Tests
pub mod Transporter
