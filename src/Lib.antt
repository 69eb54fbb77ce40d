-- ===== src/Lib.antt =====
-- ResourceCache: the core of a caching peer-to-peer node (the code is under code/trunk/p2p).
-- A node keeps torrents; a torrent is cut into pieces and blocks; a `PiecePicker` decides which blocks
-- its connections ask for, and hears of their arrival and of the verification of whole pieces; an
-- interval map decides which addresses may connect.
--
-- Filter.antt and Filter/ model `FilterImpl` of rcs/src/pub/inc/ip_filter.hpp: add_rule is `AddRule`,
-- access_of is `Access`, initial is the constructor. Addresses are numbers below a bound; the byte
-- arrays of the code and their loops `PlusOne` and `MinusOne` are in Filter/Bytes.antt.
-- Torrent.antt and Torrent/ model the sizes and counts of pieces and blocks of
-- rcs/src/frame/torrent.cpp, with the wrap-around of uint64, and the life of a torrent (Lifecycle) and when it
-- counts as inactive (Inactive).
-- Picker.antt and Picker/ model rcs/src/frame/piece_picker.cpp and piece_priority_strategy.cpp: the
-- containers (Pieces), the priorities (Strategy), the loops that pick (Loops), the state and the
-- constructor (State), the choice of blocks and pieces and the priorities (Choose), and the marks and
-- verifications (Mark). The other modules of Picker/ prove what they are named for.
-- Fsm.antt and Fsm/ model the state machine of a connection, rcs/src/frame/p2p_fsm.cpp: the state
-- and its messages (States), entering and leaving (Jumps), the handlers of the states and the machine
-- (Machine), and the table of the states (Table). The hooks of the protocols are parameters: their
-- results, and the messages that `InProc` posts to the machine and the calls that it makes of the traffic
-- controller while it runs.
-- Traffic.antt and Traffic/ model rcs/src/frame/traffic_controller.cpp: the sizes of the last seconds
-- and the speed limits (Speed), the requests of the peer (Upload) and their order (Order), and the
-- fragments of a block (Fragments). In Download the queue of the fragments that are being downloaded and
-- the picker of the torrent move together.
-- Bencode.antt and Bencode/ model pub/bencode.cpp, pub/inc/bencode_impl.hpp and
-- pub/inc/bencode_entry.hpp: the values (Entry), `Bencode` onto a stream (Encode) and `Bdecode` (Decode),
-- with `boost::lexical_cast` as a parameter (Lexical).
-- Io.antt models the numbers of pub/inc/bc_io.hpp in a row of bytes.
-- Recombiner.antt and Recombiner/ model pub/pkt_recombiner.cpp: the memory of a vector (Memory), `PktBuf`
-- (Buffer) and the loops (Process), and the recognizers of messages (Recognizers) of
-- rcs/src/frame/distri_download_msg_recognizer.cpp, rcs/src/protocol/bt/bt_msg_recognizer.cpp and
-- rcs/src/protocol/pps/pps_msg_recognizer.cpp. What an allocation gives is a parameter.
-- A copy or a read out of the memory ends the operation as a failed assertion does; `BtCommonMsgRecognizer`
-- reads four bytes before it looks at the length, so this happens when few bytes are held at the very end
-- of the memory.
-- DistriDownload.antt and DistriDownload/ model rcs/src/frame/distri_download_mgr.cpp: the messages
-- between a sponsor and its proxies (Messages) and the operations of `DistriDownloadMgr` (Manager,
-- Handlers).
-- Disk.antt and Disk/ model the thread that keeps the pieces, rcs/src/frame/disk_io_thread.cpp, with the
-- jobs of disk_io_job.cpp (Jobs) and the file of a torrent in storage.cpp and io_oper_manager.cpp (Storage):
-- the caches (Pieces), `WriteData` (WriteCache), the way of a whole piece to the hash and to disk (ToDisk,
-- VerifyPiece) and `ReadData` (ReadCache). A torrent's file, the SHA-1 and the contents of a fresh buffer
-- are parameters, and so is the class of each torrent: a BT torrent verifies a piece by its SHA-1, a PPS
-- torrent accepts every piece; the proofs go by a view of the file that POSIX describes (Files). The loop of
-- `FlushWriteCache` runs on fuel, of which one turn is enough for the first piece and no amount for another.
-- Common.antt passes on the names of the library, and has the tests and the lists all share.
-- Examples.antt and Examples/ have concrete torrents, pickers, filters, connections,
-- speeds, downloads, texts, streams, proxies, disk jobs and lifetimes.
--
-- An operation that a failed `BC_ASSERT` or a division by zero ends is an Option; `none` is that end.
-- What an operation calls of its torrent is a list of calls in its result. The loops are structural
-- recursion on the containers; the cutting of a block into fragments runs on fuel, as much as the block
-- has bytes, which is enough since each turn takes at least one; `Bdecode` runs
-- on twice the length of the text, which is enough since every call takes a byte; `ProcessPkt` on one more than the bytes
-- held, which is enough where no message of length 0 is recognized; `StopDownload`
-- on the length of its queue, of which every turn takes one. An operation of the picker holds its mutex
-- throughout, so it is one step, but for `PickBlocks`, whose two halves take the mutex one after the other:
-- what is said of all orders of steps takes each half as a step, and what is said of `PickBlocks` itself
-- is said of a call between whose halves no other operation comes.
-- Not modelled: sockets, the opening and removing of files, timers, messages and logging, which call other libraries and the
-- operating system, and generated code.
pub mod Common
pub mod Filter
pub mod Torrent
pub mod Picker
pub mod Fsm
pub mod Traffic
pub mod Bencode
pub mod Io
pub mod Recombiner
pub mod Disk
pub mod DistriDownload
pub mod Examples
