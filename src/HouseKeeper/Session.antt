-- ===== src/HouseKeeper/Session.antt =====
-- socket_thread of src/log_topn.c: the thread of one client, which reads a request with its length in
-- front, serves it with the lock held and writes the reply with its length in front, until the client
-- is gone. The answers of the kernel to read and write are lists; what the other threads do to the house
-- keeper between two requests is a function.
pub mod Streams
pub mod Frames
use logstats.Base.{
  ◌>>=◌, ℕ, zero, suc, ◌+◌, ◌*◌, ◌/◌, ◌%◌, ◌^◌, ℤ, pos, negsuc, Bool, Option, none, some, List, [],
  ◌∷◌, ◌++◌, ltb, ◌==◌, ◌&&◌, if◌then◌else◌, length, positive, negative, ◌||◌,
}
use logstats.MemPool.{Ptr}
use logstats.NameTree.Create.{Sizes}
use logstats.NameTree.Tree.{SearchTree, Name}
use logstats.Socket.{ReadAnswer, socket_read, WriteAnswer, socket_write, drop_bytes}
use logstats.ViewStats.{Rate, StatsReply}
use logstats.HouseKeeper.{HouseKeeper, ViewTreeBlocks}
use logstats.HouseKeeper.Requests.{StatsRequest, serve}

-- ntohl of the first four bytes.
pub be32_value : List ℕ → ℕ
be32_value (a ∷ b ∷ c ∷ d ∷ rest) = ((a * 256 + b) * 256 + c) * 256 + d
be32_value _ = 0

-- The four bytes that htonl makes of a number of 32 bits.
unfoldable pub be32 : ℕ → List ℕ
be32 n = (n / 2 ^ 24 % 256) ∷ (n / 2 ^ 16 % 256) ∷ (n / 2 ^ 8 % 256) ∷ (n % 256) ∷ []

-- stats_request__unpack and stats_reply__pack, which protobuf-c generates.
pub record Wire : Type 0 where
  pub unpack : List ℕ → Option StatsRequest
  pub pack : StatsReply → List ℕ

-- What the memory has for one request: what stood in `temp`, the block for the request, the copy of a
-- heap, and the blocks for a new tree of views.
pub record RequestBlocks : Type 0 where
  pub temp : List ℕ
  pub buffer : Ptr
  pub copy : Option (ℕ → Ptr)
  pub views : ViewTreeBlocks

-- The bytes of a reply; no reply is none.
unfoldable pub message : Wire → Option StatsReply → List ℕ
message wire none = []
message wire (some reply) = wire.pack reply

-- A message with its length in front.
pub frame : List ℕ → List ℕ
unfolding be32
frame bs = be32 (length bs % 2 ^ 32) ++ bs

module _ (rb : SearchTree) (sizes : Sizes) where
  -- The house keeper, the answers that were not asked for yet, and the bytes that were written.
  pub record Thread : Type 0 where
    pub keeper : HouseKeeper rb sizes
    pub reads : List ReadAnswer
    pub writes : List WriteAnswer
    pub sent : List ℕ

  -- How far the thread comes: it has more to do, it waits in read or in write, the client is gone, or
  -- the process has stopped.
  pub data Progress : Type 0 where
    running finished : Thread → Progress
    waiting : HouseKeeper rb sizes → Progress
    stopped : Progress

  -- Both calls of socket_write, whose results the source does not look at.
  pub send_reply : Thread → List ℕ → Progress
  send_reply c text = elim (socket_write c.writes (be32 (length text % 2 ^ 32))) [
    | none ↦ waiting c.keeper
    | some (r, bs, more) ↦ elim (socket_write more text) [
      | none ↦ waiting c.keeper
      | some (s, cs, writes) ↦ running (record c { writes = writes; sent = c.sent ++ (bs ++ cs) })
    ]
  ]

  module _ (wire : Wire) (print : Rate → Name) where
    -- The request is unpacked, served and answered. `others` is what the other threads do to the house
    -- keeper until the lock is taken.
    pub answer_request :
        (HouseKeeper rb sizes → HouseKeeper rb sizes)
        → RequestBlocks
        → Thread
        → (body : List ℕ) → Progress
    unfolding message send_reply
    answer_request others blocks c body = elim (wire.unpack body) [
      | none ↦ stopped
      | some asked ↦ elim (serve rb sizes print (others c.keeper) asked blocks.copy blocks.views) [
        | none ↦ stopped
        | some (k, reply) ↦ send_reply (record c { keeper = k }) (message wire reply)
      ]
    ]

    -- The request of so many bytes is read. After an error its length is taken to be 2^32 - 1, and the
    -- bytes are read from behind the block; a block at NULL cannot hold a byte.
    pub read_request :
        (HouseKeeper rb sizes → HouseKeeper rb sizes)
        → RequestBlocks
        → Thread
        → (prefix_len : ℕ) → Progress
    unfolding answer_request
    read_request others blocks c prefix_len = elim (socket_read c.reads prefix_len) [
      | none ↦ waiting c.keeper
      | some (r, body, reads) ↦
          if negative r || (blocks.buffer == 0 && ltb 0 (length body))
          then stopped
          else answer_request others blocks (record c { reads = reads }) body
    ]

    -- One round of the loop. Bytes of the length that do not come are those that stood in `temp`.
    pub serve_next :
        (HouseKeeper rb sizes → HouseKeeper rb sizes) → RequestBlocks → Thread → Progress
    unfolding be32_value read_request
    serve_next others blocks c = elim (socket_read c.reads 4) [
      | none ↦ waiting c.keeper
      | some (r, bs, reads) ↦
          if positive r
          then read_request others blocks (record c { reads = reads })
              (be32_value (bs ++ drop_bytes (length bs) blocks.temp))
          else finished (record c { reads = reads })
    ]

    -- The loop, with so many rounds to go; `i` counts the rounds.
    unfoldable pub socket_thread :
        (ℕ → HouseKeeper rb sizes → HouseKeeper rb sizes)
        → (ℕ → RequestBlocks)
        → (fuel i : ℕ) → Thread
        → Progress
    unfolding serve_next
    socket_thread others blocks zero i c = running c
    socket_thread others blocks (suc n) i c = elim (serve_next (others i) (blocks i) c) [
      | running d ↦ socket_thread others blocks n (suc i) d
      | finished d ↦ finished d
      | waiting k ↦ waiting k
      | stopped ↦ stopped
    ]
