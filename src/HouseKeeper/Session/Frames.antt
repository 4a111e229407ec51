-- ===== src/HouseKeeper/Session/Frames.antt =====
-- What a client of src/log_topn.c is answered: requests in frames, however the stream of the frames is
-- cut, are served one after the other and answered in frames.
use logstats.Base.{
  bind_some, some_inj, subst, ◌>>=◌, ◌≢◌, ◌≡◌, ◌==◌, ◌%◌, ◌^◌, refl, sym, ap, append_assoc,
  append-nil, ◌∷◌, ◌++◌, ◌<◌, ℕ, suc, List, [], length, arith, Option, some, false,
}
use logstats.NameTree.Create.{Sizes}
use logstats.NameTree.Tree.{SearchTree, Name}
use logstats.Socket.{ReadAnswer, WriteAnswer, drop_bytes}
use logstats.Socket.Stream.{
  Delivers, Takes, socket_read-Delivers, socket_read-closed, socket_write-Takes,
}
use logstats.ViewStats.{Rate, StatsReply}
use logstats.HouseKeeper.{HouseKeeper}
use logstats.HouseKeeper.Requests.{StatsRequest, serve}
use logstats.HouseKeeper.Session.{
  Wire, RequestBlocks, Thread, running, finished, be32, frame, message, send_reply, answer_request,
  read_request, serve_next, socket_thread,
}
use logstats.HouseKeeper.Session.Streams.{
  be32_value-be32, length-be32, read_length, Asks, gone, asked, Drains, Drains-split,
  Drains-nothing, frames,
}

module _ (rb : SearchTree) (sizes : Sizes) (wire : Wire) (print : Rate → Name) where
  send_reply-Takes :
      (c : Thread rb sizes) (a b rest : List WriteAnswer) (text : List ℕ)
      → c.writes ≡ a ++ (b ++ rest)
      → Takes a 4
      → Takes b (length text)
      → send_reply rb sizes c text
        ≡ running (record c { writes = rest; sent = c.sent ++ frame text })
  unfolding send_reply frame
  send_reply-Takes c a b rest text e ta tb =
      rw
        (
          e,
          send_reply,
          socket_write-Takes a (be32 (length text % 2 ^ 32)) (b ++ rest)
              (subst (Takes a) (sym (length-be32 (length text % 2 ^ 32))) ta),
          socket_write-Takes b text rest tb,
        )
        refl

  -- One request, up to its reply.
  serve_next-asked :
      (others : HouseKeeper rb sizes → HouseKeeper rb sizes) (blocks : RequestBlocks)
      (c : Thread rb sizes) (a b rest : List ReadAnswer) (body : List ℕ) (request : StatsRequest)
      (k : HouseKeeper rb sizes) (reply : Option StatsReply)
      → c.reads ≡ a ++ (b ++ rest)
      → length body < 2 ^ 32
      → Delivers a (be32 (length body))
      → Delivers b body
      → wire.unpack body ≡ some request
      → blocks.buffer ≢ 0
      → serve rb sizes print (others c.keeper) request blocks.copy blocks.views ≡ some (k, reply)
      → serve_next rb sizes wire print others blocks c
        ≡ send_reply rb sizes (record c { keeper = k; reads = rest }) (message wire reply)
  unfolding serve_next read_request answer_request
  serve_next-asked others blocks c a b rest body request k reply e small da db u room run =
      let there : (blocks.buffer == 0) ≡ false = ground arith in
      rw
        (
          e,
          serve_next,
          read_length a (b ++ rest) (length body) da,
          be32_value-be32 (length body) (drop_bytes (length (be32 (length body))) blocks.temp)
              small,
          read_request,
          socket_read-Delivers b body rest db,
          there,
          answer_request,
          u,
          run,
        )
        refl

  -- What the source promises of a list of requests: each is served on the state that the one before and
  -- the other threads left, and answered.
  unfoldable pub serve_all :
      (ℕ → HouseKeeper rb sizes → HouseKeeper rb sizes)
      → (ℕ → RequestBlocks)
      → ℕ
      → HouseKeeper rb sizes
      → List StatsRequest
      → Option (HouseKeeper rb sizes × List (List ℕ))
  serve_all others blocks i k [] = some (k, [])
  serve_all others blocks i k (request ∷ requests) = do
    (k1, reply) ← serve rb sizes print (others i k) request (blocks i).copy (blocks i).views
    (k2, texts) ← serve_all others blocks (suc i) k1 requests
    some (k2, message wire reply ∷ texts)

  -- The first of several requests is served where all are.
  serve_all-first :
      (others : ℕ → HouseKeeper rb sizes → HouseKeeper rb sizes) (blocks : ℕ → RequestBlocks)
      (i : ℕ) (k k' : HouseKeeper rb sizes) (request : StatsRequest) (requests : List StatsRequest)
      (texts : List (List ℕ))
      → serve_all others blocks i k (request ∷ requests) ≡ some (k', texts)
      → (k1 : HouseKeeper rb sizes) × (reply : Option StatsReply) × (more : List (List ℕ)) × (serve
            rb sizes print
            (others i k)
            request
            (blocks i).copy
            (blocks i).views
          ≡ some (k1, reply))
        × (serve_all others blocks (suc i) k1 requests ≡ some (k', more))
        × (texts ≡ message wire reply ∷ more)
  unfolding serve_all
  serve_all-first others blocks i k k' request requests texts e =
      let (r, run, tail) =
        bind_some (serve rb sizes print (others i k) request (blocks i).copy (blocks i).views) _
          e in
      let (s, more, last) = bind_some (serve_all others blocks (suc i) r.0 requests) _ tail in
      (
        r.0,
        r.1,
        s.1,
        run,
        rw (← ap (λ (q : HouseKeeper rb sizes × List (List ℕ)). q.0) (some_inj last)) more,
        sym (ap (λ (q : HouseKeeper rb sizes × List (List ℕ)). q.1) (some_inj last)),
      )

  -- Where a client sends requests in frames, in pieces of any size, takes the replies, and goes, and every
  -- request is served, socket_thread serves them in order on the state that the one before and the other
  -- threads left, sends the reply of each in a frame, nothing else, and ends.
  pub socket_thread-Asks :
      (others : ℕ → HouseKeeper rb sizes → HouseKeeper rb sizes) (blocks : ℕ → RequestBlocks)
      (reads : List ReadAnswer) (requests : List StatsRequest) (writes : List WriteAnswer)
      (texts : List (List ℕ)) (i : ℕ) (k k' : HouseKeeper rb sizes) (sent : List ℕ)
      → ((j : ℕ) → (blocks j).buffer ≢ 0)
      → Asks wire reads requests
      → serve_all others blocks i k requests ≡ some (k', texts)
      → Drains writes texts
      → socket_thread rb sizes wire print others blocks
          (suc (length requests))
          i
          (record { keeper = k; reads = reads; writes = writes; sent = sent })
        ≡ finished (record { keeper = k'; reads = []; writes = []; sent = sent ++ frames texts })
  unfolding socket_thread serve_next serve_all frames
  socket_thread-Asks others blocks reads requests writes texts i k k' sent room gone run d =
      let all = ap (λ (q : HouseKeeper rb sizes × List (List ℕ)). q.1) (some_inj run) in
      let same = ap (λ (q : HouseKeeper rb sizes × List (List ℕ)). q.0) (some_inj run) in
      let none_left : writes ≡ [] = Drains-nothing (subst (Drains writes) (sym all) d) in
      rw
        (
          socket_thread,
          serve_next,
          socket_read-closed [] 3,
          ← all,
          same,
          none_left,
          append-nil sent,
        )
        refl
  socket_thread-Asks others blocks reads requests writes texts i k k' sent room
        (asked {rest = rest} {requests = requests'} a b body request small da db u more) run d =
      let (k1, reply, texts', first, run', e) =
        serve_all-first others blocks i k k' request requests' texts run in
      let (wa, wb, left, e', ta, tb, d') = Drains-split (subst (Drains writes) e d) in
      let c : Thread rb sizes = record {
        keeper = k;
        reads = reads;
        writes = writes;
        sent = sent;
      } in
      rw
        (
          socket_thread,
          serve_next-asked (others i) (blocks i) c a b rest body request k1 reply refl small da db u
              (room i) first,
          send_reply-Takes (record c { keeper = k1; reads = rest }) wa wb left (message wire reply)
              e' ta tb,
          socket_thread-Asks others blocks rest requests' left texts' (suc i) k1 k'
              (sent ++ frame (message wire reply)) room more run' d',
          e,
          append_assoc sent (frame (message wire reply)) (frames texts'),
        )
        refl
