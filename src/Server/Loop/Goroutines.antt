-- ===== src/Server/Loop/Goroutines.antt =====
-- handler.go, Process, and server.go, processAndRecord: what a goroutine does that the loop started.
use kama_rpc_go.Base.{
  ℕ, ◌<◌, ◌^◌, ◌≡◌, refl, ap, ◌∙◌, if◌then◌else◌, Bool, true, false, [], Bytes, length, ◌||◌, not,
}
use kama_rpc_go.Codec.Compress.{IsGzip}
use kama_rpc_go.Codec.Registry.{Registry}
use kama_rpc_go.Metrics.{Observation}
use kama_rpc_go.Protocol.Message.{Library}
use kama_rpc_go.Server.Service.{ServiceEntry}
use kama_rpc_go.Server.Handler.{Runtime, Handler, codec_for, append_response}
use kama_rpc_go.Server.Handler.Responses.{
  IsRuntime, Fits, Appends, response_to, outcome, is_err, append_response-Answers,
}
use kama_rpc_go.Server.Loop.{Request, Round, observation, moving_average}

module _ {Req Rep : Type 0} (rt : Runtime Req Rep) (handler : Handler) (reg : Registry)
    (lib : Library) where
  -- The bytes that WriteRaw is given, and whether the call has failed, by what WriteRaw returned.
  unfoldable pub process : Request → ServiceEntry → Bool → Bytes × Bool
  process req service written =
      let out = append_response rt handler reg lib [] req.header req.body service in
      (out.0, if written then out.1 else true)

  -- With the observation, and the value stored in avgCost.
  unfoldable pub process_and_record : Round → Request → ServiceEntry → Bytes × Observation × ℕ
  unfolding process
  process_and_record r req service =
      let out = process req service r.written in
      (out.0, observation req r.elapsed out.1, moving_average r.avg_cost r.elapsed)

  -- A goroutine writes one packet, which decodes to the reply of its request or to the error's text,
  -- and it counts the call as failed if there is an error or if the write has failed. The text
  -- of the error, if there is one, fits a header, codec types are bytes, and the packet is below
  -- 2 ^ 32 bytes.
  pub process_and_record-Answers :
      (r : Round) (req : Request) (service : ServiceEntry)
      → IsRuntime rt
      → IsGzip lib.gzip
      → req.header.request_id < 2 ^ 64
      → Fits rt (outcome rt handler reg lib req.header req.body service)
      → length (process_and_record r req service).0 < 2 ^ 32
      → (let o = outcome rt handler reg lib req.header req.body service in
          Appends lib []
            (process_and_record r req service).0
            (response_to rt req.header.request_id (codec_for handler reg req.header.codec_type) o)
          × ((process_and_record r req service).1.failed ≡ (is_err o || not r.written)))
  unfolding process_and_record process
  process_and_record-Answers r req service v g fits short small =
      let (packet, failed) =
        append_response-Answers rt handler reg lib [] req.header req.body service v g fits short
          small in
      (packet, ap (λ b. if r.written then b else true) failed ∙ either _ r.written)
    where
      either : (b w : Bool) → (if w then b else true) ≡ (b || not w)
      either true true = refl
      either true false = refl
      either false true = refl
      either false false = refl
