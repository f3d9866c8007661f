-- ===== src/RpcServer/RoundTrip.antt =====
-- A request and its answer, there and back: the client of include/tcp_client.h and the server of
-- src/rpc_server.cpp, with the network between them.
use mathlib.Core.Option
use tcp_test.Common.{
  ℕ, ◌+◌, ◌^◌, ◌<◌, ◌≡◌, refl, ap, ◌∙◌, Bool, some, List, [], ◌∷◌, ◌++◌, map, length, All, arith,
  ◌==◌, Option-cases, inl, inr, All-append, Bool-cases,
}
use tcp_test.Common.OrdMap.{find}
use tcp_test.Frame.{Frame, IsByte, serialize}
use tcp_test.Frame.RoundTrip.{Fits}
use tcp_test.Handler.{create_frame}
use tcp_test.Parser.Chunks.{concat, serialize_all}
use tcp_test.TcpClient.{TcpClient, SendResult, handle_read}
use tcp_test.TcpClient.Waiting.{IsWaiting}
use tcp_test.TcpClient.Deliveries.{first_payload}
use tcp_test.TcpClient.Responses.{handle_read-sets}
use tcp_test.ClientHandler.{ClientHandler, SendEnd, complete, send_pending, write_round}
use tcp_test.ClientHandler.Writing.{send_pending-Sent}
use tcp_test.TcpServer.{TcpServer, write_client}
use tcp_test.RpcServer.{greeting, serve}
use tcp_test.RpcServer.Answers.{answer, serve-answers}

round-sends :
    (h h' : ClientHandler) (results : List SendResult) (sent : SendEnd)
    → write_round h results ≡ some (sent, h')
    → sent ≡ send_pending h.outgoing_queue [] results
unfolding write_round
round-sends h h' results sent e = ground (arith, e)

client-sends :
    (s s' : TcpServer) (id : ℕ) (h : ClientHandler) (results : List SendResult) (sent : SendEnd)
    → find id s.clients ≡ some h
    → write_client s id results ≡ some (sent, s')
    → sent ≡ send_pending h.outgoing_queue [] results
unfolding write_client
client-sends s s' id h results sent there e = elim (Option-cases (write_round h results)) [
  | inl blocked_ ↦ absurd (ground (arith, e, there, blocked_))
  | inr ((sent', h'), made) ↦ ground (arith, e, there, made, round-sends h h' results sent' made)
]

complete-sends :
    (pending : List (List ℕ)) (results left : List SendResult) (out : List ℕ)
    → complete out left ≡ send_pending pending [] results
    → out ≡ concat pending
complete-sends pending results left out e = ground (arith, e, send_pending-Sent pending results)

concat-answers :
    (enabled : Bool) (u : ℕ) (fs : List Frame)
    → concat (map (λ f. serialize enabled (answer u f)) fs)
      ≡ serialize_all enabled (map (answer u) fs)
concat-answers enabled u [] = refl
concat-answers enabled u (f ∷ fs) =
    ap (◌++◌ (serialize enabled (answer u f))) (concat-answers enabled u fs)

greeting-IsByte : All IsByte greeting
unfolding greeting
greeting-IsByte = omega arith

answer-Fits :
    (u : ℕ) (f : Frame) → u < 2 ^ 32 → length f.payload + 17 < 2 ^ 32 → Fits f → Fits (answer u f)
unfolding answer create_frame greeting
answer-Fits u f hu hl v = record {
  length_u32 = omega arith;
  stream_u32 = v.stream_u32;
  sequence_u32 = v.sequence_u32;
  checksum_u32 = hu;
  counted = omega (arith, hl);
  bytes = All-append IsByte greeting f.payload greeting-IsByte v.bytes;
}

abbrev pub Short : Frame → Type 0
Short f = length f.payload + 17 < 2 ^ 32

pub answers-Fits :
    (u : ℕ) (fs : List Frame)
    → u < 2 ^ 32
    → All Short fs
    → All Fits fs
    → All Fits (map (answer u) fs)
answers-Fits u [] hu hl v = tt
answers-Fits u (f ∷ fs) hu hl v = (answer-Fits u f hu hl.0 v.0, answers-Fits u fs hu hl.1 v.1)

pub first-answer :
    (u id : ℕ) (fs : List Frame)
    → first_payload id (map (answer u) fs) ≡ Option.map (◌++◌ greeting) (first_payload id fs)
unfolding first_payload answer create_frame
first-answer u id [] = refl
first-answer u id (f ∷ fs) = elim (Bool-cases (f.stream_id == id)) [
  | inl e ↦ rw e refl
  | inr e ↦ rw e (first-answer u id fs)
]

-- What a connection that has read requests sends.
pub answers-written :
    (enabled : Bool) (u : ℕ) (requests : List Frame) (there : List (List ℕ)) (s s' : TcpServer)
    (id : ℕ) (h : ClientHandler) (results left : List SendResult) (out : List ℕ)
    → All Fits requests
    → All (All IsByte) there
    → concat there ≡ serialize_all enabled requests
    → find id s.clients ≡ some h
    → h.frame_buffer ≡ []
    → h.outgoing_queue ≡ []
    → write_client (serve enabled u s id there) id results ≡ some (complete out left, s')
    → out ≡ serialize_all enabled (map (answer u) requests)
answers-written enabled u requests there s s' id h results left out v b e found empty_buffer
      empty_queue written =
    let served =
      serve-answers enabled u requests there s id h v b e found empty_buffer empty_queue in
    complete-sends (map (λ f. serialize enabled (answer u f)) requests) results left out
      (client-sends (serve enabled u s id there) s' id _ results (complete out left) served written)
    ∙ concat-answers enabled u requests

-- Requests that fit the wire format, with texts seventeen bytes below the limit, reach a connection of
-- the server whose buffer and queue are empty, cut anyhow on their way. The connection's writer sends
-- its queue without an error, and its bytes reach a client cut anyhow, all with the same checksum flag.
-- Then a promise of the client that was registered under an id has the greeting and the text of the
-- first request with that stream id, or no value if there is none.
pub request-answered :
    (enabled : Bool) (u : ℕ) (requests : List Frame) (there back : List (List ℕ)) (s s' : TcpServer)
    (id : ℕ) (h : ClientHandler) (results left : List SendResult) (out : List ℕ) (c : TcpClient)
    (stream p : ℕ)
    → u < 2 ^ 32
    → All Fits requests
    → All (λ f. length f.payload + 17 < 2 ^ 32) requests
    → All (All IsByte) there
    → concat there ≡ serialize_all enabled requests
    → find id s.clients ≡ some h
    → h.frame_buffer ≡ []
    → h.outgoing_queue ≡ []
    → write_client (serve enabled u s id there) id results ≡ some (complete out left, s')
    → All (All IsByte) back
    → concat back ≡ out
    → IsWaiting c
    → find stream c.response_handlers ≡ some p
    → (r : TcpClient) × (handle_read c [] back ≡ some r)
      × (find p r.values ≡ Option.map (◌++◌ greeting) (first_payload stream requests))
request-answered enabled u requests there back s s' id h results left out c stream p hu v short b e
      found empty_buffer empty_queue written b' e' w waits =
    let all_out : out ≡ serialize_all enabled (map (answer u) requests) =
      answers-written enabled u requests there s s' id h results left out v b e found empty_buffer
        empty_queue written in
    let (r, ran, value) =
      handle_read-sets enabled (map (answer u) requests) back c stream p
        (answers-Fits u requests hu short v) b' (e' ∙ all_out) w waits in
    (r, ran, value ∙ first-answer u stream requests)
