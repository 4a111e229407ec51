-- ===== src/Tests/Session.antt =====
-- A client of src/log_topn.c that asks for the views, and for a view that is not there, and goes. Its
-- second length comes in two pieces.
use logstats.Base.{◌≡◌, ℕ, zero, suc, refl, pos, none, some, List, [], ◌∷◌, ◌++◌, arith}
use logstats.NameTree.Tree.{Name}
use logstats.Socket.{
  ReadAnswer, WriteAnswer, bytes_read, interrupted, closed, written, write_interrupted,
}
use logstats.Socket.Stream.{complete, piece, delay, all_taken, part, pause}
use logstats.ViewStats.{Rate, bytes}
use logstats.ViewTree.{view_tree_find}
use logstats.HouseKeeper.{HouseKeeper}
use logstats.HouseKeeper.Requests.{StatsRequest, serve, general_reply, return_all_views, view_names}
use logstats.HouseKeeper.Session.{
  Wire, RequestBlocks, Thread, finished, be32, message, socket_thread,
}
use logstats.HouseKeeper.Session.Streams.{Asks, gone, asked, Drains, drained, drains, frames}
use logstats.HouseKeeper.Session.Frames.{serve_all, socket_thread-Asks}
use logstats.Tests.Known.{sizes}
use logstats.Tests.Steps.{keeper_blocks, created}
use logstats.Tests.Table.{tables}

abbrev views : StatsRequest
views = record { key = bytes "views"; view = bytes "*"; topn = pos 0 }

abbrev rates : StatsRequest
rates = record { key = bytes "qps"; view = bytes "v"; topn = pos 0 }

-- A request of one byte, and a reply by its key.
abbrev wire : Wire
wire = record {
  unpack = λ body. elim body [
    | [] ↦ none
    | b ∷ more ↦ elim b [ zero ↦ some views | suc n ↦ some rates ]
  ];
  pack = λ reply. reply.key;
}

abbrev print : Rate → Name
print r = []

abbrev alone : ℕ → HouseKeeper tables sizes → HouseKeeper tables sizes
alone i k = k

abbrev blocks : ℕ → RequestBlocks
blocks i = record { temp = []; buffer = 5; copy = none; views = keeper_blocks }

abbrev replies : List Name
replies = bytes "views" ∷ bytes "error" ∷ []

abbrev reads : List ReadAnswer
reads =
    (bytes_read (0 ∷ 0 ∷ 0 ∷ 1 ∷ []) ∷ [])
    ++ ((bytes_read (0 ∷ []) ∷ [])
        ++ ((bytes_read (0 ∷ 0 ∷ []) ∷ interrupted ∷ bytes_read (0 ∷ 1 ∷ []) ∷ [])
            ++ ((bytes_read (1 ∷ []) ∷ []) ++ closed ∷ [])))

abbrev writes : List WriteAnswer
writes =
    (written 4 ∷ [])
    ++ ((written 5 ∷ [])
        ++ ((written 4 ∷ []) ++ ((written 2 ∷ write_interrupted ∷ written 3 ∷ []) ++ [])))

two_requests : Asks wire reads (views ∷ rates ∷ [])
unfolding be32
two_requests =
    asked (bytes_read (0 ∷ 0 ∷ 0 ∷ 1 ∷ []) ∷ []) (bytes_read (0 ∷ []) ∷ []) (0 ∷ []) views
      (omega arith) (piece 0 (0 ∷ 0 ∷ 1 ∷ []) complete) (piece 0 [] complete) refl
      (asked (bytes_read (0 ∷ 0 ∷ []) ∷ interrupted ∷ bytes_read (0 ∷ 1 ∷ []) ∷ [])
        (bytes_read (1 ∷ []) ∷ []) (1 ∷ []) rates (omega arith)
        (piece 0 (0 ∷ []) (delay (piece 0 (1 ∷ []) complete))) (piece 1 [] complete) refl gone)

two_replies : Drains writes replies
two_replies =
    drains (written 4 ∷ []) (written 5 ∷ []) (bytes "views") (part 3 all_taken) (part 4 all_taken) (
      drains (written 4 ∷ []) (written 2 ∷ write_interrupted ∷ written 3 ∷ []) (bytes "error")
        (part 3 all_taken) (part 1 (pause (part 2 all_taken))) drained)

both_served :
    serve_all tables sizes wire print alone blocks 0 created (views ∷ rates ∷ [])
    ≡ some (created, replies)
unfolding serve_all serve view_tree_find general_reply return_all_views view_names message
    logstats.ViewStats.same_name logstats.HouseKeeper.Requests.view_not_found
both_served = refl

abbrev thread : Thread tables sizes
thread = record { keeper = created; reads = reads; writes = writes; sent = [] }

socket_thread-Asks_example :
    socket_thread tables sizes wire print alone blocks 3 0 thread
    ≡ finished (record { keeper = created; reads = []; writes = []; sent = frames replies })
socket_thread-Asks_example =
    socket_thread-Asks tables sizes wire print alone blocks reads (views ∷ rates ∷ []) writes
      replies 0 created created [] (λ j. ground arith) two_requests both_served two_replies
