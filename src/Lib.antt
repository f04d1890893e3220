-- ===== src/Lib.antt =====
-- PeerStream, a BitTorrent client: the peer wire protocol, the assembly of pieces, the geometry of
-- a torrent's pieces and files, the scheduling of requests, paths, bencode, the routing table of
-- the DHT, and the packets of a UDP tracker.
--
-- A session with a peer starts with a handshake (app/peer/handshake.py). Then messages
-- (app/peer/messages.py) go back and forth in length-prefixed frames, which app/peer/protocol.py
-- reads off a byte stream. Among them are the bitfields (app/peer/bitfield.py) that say which
-- pieces a peer holds. A piece is requested in blocks (app/download/block.py), and the blocks that
-- arrive are put together by app/download/piece.py. app/download/scheduler.py decides which peer is
-- asked for which block: the order of the pieces comes from app/download/selector.py, and near the
-- end app/download/endgame.py lets peers race for a block. app/storage/files.py says to which files
-- a range of the torrent's bytes goes, and app/torrent/metadata.py where the pieces lie. The names
-- of the files come out of a torrent, so app/torrent/path_safety.py checks them. A torrent is read
-- and written by app/bencode. Peers come from a tracker (app/tracker/udp_tracker.py) or from the
-- DHT, whose nodes app/discovery/dht/routing.py keeps. Which peers we upload to is decided by
-- app/upload/choke.py.
--
-- Prelude          Boolean tests, lists, results, byte strings, sets of names
-- Peer.Messages    app/peer/messages.py: `construct` (the `__post_init__` checks), `encode`,
--                  `decode`
-- Peer.Stream      app/peer/protocol.py: `read_message`, `messages`, and `send_all` for calls of
--                  `send`
-- Peer.Handshake   app/peer/handshake.py: `encode`, `decode`, the flags, `outgoing_handshake`
-- Peer.Stream.Greeting  app/peer/protocol.py: `_write`, `perform_handshake`, `accept_handshake`
-- Peer.Session     app/peer/state.py: `PeerSession` and `apply`, `apply_all` for successive
--                  messages
-- Peer.Bitfield    app/peer/bitfield.py: `Bitfield`; `set` is `put`, `empty` is `is_none`,
--                  `from_bytes` is `parse`, `to_bytes` is `to_wire`
-- Peer.Availability  app/peer/bitfield.py: `PieceAvailability`; `add` is `add_field`, `remove` is
--                  `remove_field`, `count` is `count_of`
-- Download.Block   app/download/block.py: `plan_blocks`, `block_at`
-- Download.Piece   app/download/piece.py: `Piece` and its operations; `data` is `assembled`
-- Download.Endgame  app/download/endgame.py: `EndgameTracker` and its operations; `in_flight` is
--                  `tracked_blocks`
-- Download.Selector  app/download/selector.py: `select`; `_sequential` is `in_sequence`,
--                  `_rarest_first` is `by_rarity`
-- Download.Pipeline  app/download/scheduler.py: `PeerView`, `PeerSlot`; `__len__` is `pipeline`
-- Download.Scheduler  app/download/scheduler.py: `Scheduler` and its bookkeeping;
--                  `unclaimed_blocks` is `unclaimed_count` with `remember_unclaimed`;
--                  Scheduler.Planning has `plan`, Scheduler.Recall has `note_received`,
--                  `note_orphaned`, `cancel_piece`, `drop_peer` and `expire`; Scheduler.Accounting
--                  has the invariant of the count
-- Storage          app/storage/files.py: `clip`, `spans`, `plan`
-- Torrent          app/torrent/metadata.py: `FileEntry`, `Torrent` with `make_torrent` for its
--                  checks, `piece_offset`, `piece_size`, `files_in_piece`
-- Bencode          app/bencode: `decode`, `decode_prefix`, `encode`, `encoded_size`
-- Dht              app/discovery/dht/routing.py: `Contact` is `DhtContact`, `get_among` and the
--                  other names with `among` go through the buckets; `add` takes a number of
--                  rounds, which `add_contact` gives; Dht.Closest has `contacts` and `closest`
-- Torrent.Paths    app/torrent/path_safety.py: the checks on a component and on a path
-- Tracker.Udp      app/tracker/udp_tracker.py: the packets and the replies; from
--                  app/tracker/base.py the requests and responses, and from
--                  app/tracker/http_tracker.py the compact peers
-- Upload.Choke     app/upload/choke.py: `evaluate`, `forget`, and the ranking
-- Examples         the theorems at concrete inputs
--
-- An exception is its class (Prelude.Results); the text of its message is not modelled. Python's
-- integers are natural numbers here: the fields come off the wire unsigned, so the tests for
-- negative values have no counterpart. A byte string is a list of numbers, and the theorems that
-- need it ask for bytes (`IsBytes`). A method that changes its object takes the object and returns
-- the new one. `Piece` keeps a block, its state and its requesters in one slot, since the source's
-- dictionaries have the same keys from the constructor on. A set of peers is a list of names
-- without repeats. A time is a number of ticks. The scheduler holds its pieces, which in the source
-- are shared with the caller, and knows a peer by its key.
--
-- The byte stream under the frames is a parameter, `Reader`: `readexactly` takes the bytes asked
-- for off the front of what is to come when they are there, and never more than it is asked for.
-- The output side of the socket is `Writer`. A session that refuses a message is left as it was, its clock apart. `inet_ntoa` of the
-- tracker's packets is a parameter, which the theorems ask for a text that is not empty, and so are
-- the codecs and the character tables of the path checks, of which nothing is asked. Each search of
-- a planning pass reads the clock and may shuffle; what it gets is a parameter, a function of the
-- number of searches before. The name that Python gives a slot without a peer is a parameter of
-- `expire`.
--
-- `messages` runs for a number of steps, since the source's iteration goes on as long as the
-- connection does; its test of `closed` is left out with closing. The loop of `plan_blocks` runs on fuel, a round for each byte of the piece; each
-- round moves on by a byte at least. The decoder of bencode counts the levels left down to its
-- depth limit, and its loops have a round for each byte. `add` of the routing table has 161 rounds,
-- since a split halves a range of 160 bits. The loop of `plan` over one peer has a round more than
-- the capacity, since each round adds a request.
--
-- Not modelled: connecting, time limits, closing, text forms, and the fractions for display; the
-- state of a scheduler after an exception; the conversation with a tracker, the HTTP tracker, the
-- DHT's datagrams, file operations, the spans of the bencode decoder, the torrent parser, the tasks
-- of the download manager, the serving of blocks, statistics and the user interface. These are
-- network or disk I/O, or rest on parts not modelled.
pub mod Prelude
pub mod Peer
pub mod Download
pub mod Storage
pub mod Torrent
pub mod Bencode
pub mod Dht
pub mod Tracker
pub mod Upload
mod Examples
