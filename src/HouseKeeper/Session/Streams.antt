-- ===== src/HouseKeeper/Session/Streams.antt =====
-- The streams of requests and replies that a thread of src/log_topn.c reads and writes.
use logstats.Base.{subst, ◌≡◌, ◌^◌, refl, ◌∷◌, ◌++◌, ◌<◌, ℕ, List, [], length, arith, some, pos}
use logstats.Socket.{ReadAnswer, WriteAnswer, closed, socket_read}
use logstats.Socket.Stream.{Delivers, Takes, socket_read-Delivers}
use logstats.HouseKeeper.Requests.{StatsRequest}
use logstats.HouseKeeper.Session.{Wire, be32, be32_value, frame}

pub be32_value-be32 : (n : ℕ) (rest : List ℕ) → n < 2 ^ 32 → be32_value (be32 n ++ rest) ≡ n
unfolding be32 be32_value
be32_value-be32 n rest h = omega (arith, h)

pub length-be32 : (n : ℕ) → length (be32 n) ≡ 4
unfolding be32
length-be32 n = refl

pub read_length :
    (a rest : List ReadAnswer) (n : ℕ)
    → Delivers a (be32 n)
    → socket_read (a ++ rest) 4 ≡ some (pos 4, be32 n, rest)
read_length a rest n d =
    subst (λ m. socket_read (a ++ rest) m ≡ some (pos m, be32 n, rest)) (length-be32 n)
      (socket_read-Delivers a (be32 n) rest d)

-- The answers of read that bring these requests in frames, and then that the client is gone.
pub data Asks (wire : Wire) : List ReadAnswer → List StatsRequest → Type 0 where
  gone : Asks wire (closed ∷ []) []
  asked :
      {rest : List ReadAnswer} {requests : List StatsRequest}
      (length_answers body_answers : List ReadAnswer) (body : List ℕ) (request : StatsRequest)
      → length body < 2 ^ 32
      → Delivers length_answers (be32 (length body))
      → Delivers body_answers body
      → wire.unpack body ≡ some request
      → Asks wire rest requests
      → Asks wire (length_answers ++ (body_answers ++ rest)) (request ∷ requests)

-- The answers of write that take the frames of these messages.
pub data Drains : List WriteAnswer → List (List ℕ) → Type 0 where
  drained : Drains [] []
  drains :
      {rest : List WriteAnswer} {texts : List (List ℕ)}
      (length_answers text_answers : List WriteAnswer) (text : List ℕ)
      → Takes length_answers 4
      → Takes text_answers (length text)
      → Drains rest texts
      → Drains (length_answers ++ (text_answers ++ rest)) (text ∷ texts)

pub Drains-split :
    {writes : List WriteAnswer} {text : List ℕ} {texts : List (List ℕ)}
    → Drains writes (text ∷ texts)
    → (a : List WriteAnswer) × (b : List WriteAnswer) × (rest : List WriteAnswer) × (writes
        ≡ a ++ (b ++ rest))
      × Takes a 4
      × Takes b (length text)
      × Drains rest texts
Drains-split (drains {rest = rest} a b text ta tb d) = (a, b, rest, refl, ta, tb, d)

pub Drains-nothing : {writes : List WriteAnswer} → Drains writes [] → writes ≡ []
Drains-nothing drained = refl

unfoldable pub frames : List (List ℕ) → List ℕ
frames [] = []
frames (text ∷ texts) = frame text ++ frames texts
