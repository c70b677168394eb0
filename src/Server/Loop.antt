-- ===== src/Server/Loop.antt =====
-- internal/server/server.go, Handle: the loop that serves one connection. What other goroutines and
-- the network decide is given to each round: whether a whole packet is buffered, what ReadBorrowed
-- returns, what the shared limiter answers, the average cost that is loaded, the time that the
-- call takes, and whether the writes succeed. cloneMessage copies, which changes no byte.
pub mod Batching
pub mod InOrder
pub mod Writing
pub mod Receiving
pub mod Goroutines
mod Runs
use kama_rpc_go.Base.{
  ℕ, ◌+◌, ◌-◌, ◌/◌, ◌*◌, ltb, leb, ◌==◌, if◌then◌else◌, ◌&&◌, not, Bool, true, false, List, [], ◌∷◌,
  ◌++◌, Bytes, length, Option, none, some, Result, ok, err, codes, bytes_eq, lookup,
}
use kama_rpc_go.Codec.Registry.{Registry}
use kama_rpc_go.Metrics.{Observation}
use kama_rpc_go.Protocol.Header.{Header}
use kama_rpc_go.Protocol.Message.{Library}
use kama_rpc_go.Server.Service.{ServiceEntry}
use kama_rpc_go.Server.Handler.{Runtime, Handler, append_error_response, append_response}

-- A request, decoded: DecodeInto always sets the header.
pub record Request : Type 0 where
  pub header : Header
  pub body : Bytes

abbrev pub dispatch_threshold : ℕ
dispatch_threshold = 50000

abbrev pub max_batched_response_bytes : ℕ
max_batched_response_bytes = 65536

-- EWMA with 1/8, over nanoseconds: old-old/8+cost/8.
unfoldable pub moving_average : ℕ → ℕ → ℕ
moving_average old cost = old - old / 8 + cost / 8

pub record Round : Type 0 where
  pub buffered : Bool
  pub read : Result Request
  pub allowed : Bool
  pub avg_cost : ℕ
  pub elapsed : ℕ
  pub head_written : Bool
  pub written : Bool

-- The loop's variables, with what it has done so far: the bytes of the writes that succeeded, the
-- requests that goroutines were started for, each with the number of bytes written before it, the
-- observations, and the value stored in avgCost last. `returned` is set when it returns.
pub record Serving : Type 0 where
  pub resp_buf : Bytes
  pub wire : Bytes
  pub spawned : List (ℕ × Request × ServiceEntry)
  pub observed : List Observation
  pub stored_cost : ℕ
  pub returned : Bool

-- WriteRaw of the responses that were gathered; an error ends the loop.
unfoldable pub write_responses : Bool → Serving → Serving
write_responses written s =
    if written
    then record s { wire = s.wire ++ s.resp_buf; resp_buf = [] }
    else record s { returned = true }

-- `if len(respBuf) > 0 && …`
unfoldable pub write_if : Bool → Bool → Serving → Serving
unfolding write_responses
write_if test written s = if ltb 0 (length s.resp_buf) && test then write_responses written s else s

abbrev pub observation : Request → ℕ → Bool → Observation
observation req elapsed failed = record {
  service = req.header.service_name;
  method = req.header.method_name;
  elapsed = elapsed;
  failed = failed;
}

-- The request is refused with a text.
unfoldable pub refuse : Library → Bytes → Request → Serving → Serving
refuse lib text req s = record s {
  resp_buf = append_error_response lib s.resp_buf req.header.request_id text;
  observed = s.observed ++ (observation req 0 true ∷ []);
}

-- The start of a goroutine, unless the write before it has failed.
unfoldable pub spawn : Request → ServiceEntry → Serving → Serving
spawn req service s =
    if s.returned
    then s
    else record s { spawned = s.spawned ++ ((length s.wire, req, service) ∷ []) }

module _ {Req Rep : Type 0} (rt : Runtime Req Rep) (handler : Handler) (reg : Registry)
    (lib : Library) (services : List (Bytes × ServiceEntry)) where
  -- appendAndRecord
  unfoldable pub append_and_record : Round → Request → ServiceEntry → Serving → Serving
  append_and_record r req service s =
      let out = append_response rt handler reg lib s.resp_buf req.header req.body service in
      record s {
        resp_buf = out.0;
        observed = s.observed ++ (observation req r.elapsed out.1 ∷ []);
        stored_cost = moving_average r.avg_cost r.elapsed;
      }

  -- A request to a service that is there: a goroutine if calls are slow, or here and now.
  unfoldable pub serve_found : Round → Request → ServiceEntry → Serving → Serving
  unfolding write_if spawn append_and_record
  serve_found r req service s =
      if ltb dispatch_threshold r.avg_cost
      then spawn req service (write_if true r.written s)
      else (let s' = append_and_record r req service s in
          if leb max_batched_response_bytes (length s'.resp_buf)
          then write_responses r.written s'
          else s')

  unfoldable pub serve_looked_up : Round → Request → Option ServiceEntry → Serving → Serving
  unfolding refuse serve_found
  serve_looked_up r req none s =
      refuse lib (codes "service not found: " ++ req.header.service_name) req s
  serve_looked_up r req (some service) s = serve_found r req service s

  unfoldable pub serve_request : Round → Request → Serving → Serving
  unfolding serve_looked_up
  serve_request r req s =
      if r.allowed
      then serve_looked_up r req (lookup req.header.service_name services) s
      else refuse lib (codes "rate limit exceeded") req s

  unfoldable pub serve_read : Round → Result Request → Serving → Serving
  unfolding serve_request
  serve_read r (err e) s = record s { returned = true }
  serve_read r (ok req) s = if s.returned then s else serve_request r req s

  -- One round, from the write that comes before the reading on.
  unfoldable pub serve_round : Round → Serving → Serving
  unfolding serve_read
  serve_round r s = serve_read r r.read (write_if (not r.buffered) r.head_written s)

  unfoldable pub serve : List Round → Serving → Serving
  serve [] s = s
  serve (r ∷ rs) s = if s.returned then s else serve rs (serve_round r s)
