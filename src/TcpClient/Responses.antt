-- ===== src/TcpClient/Responses.antt =====
-- From the wire to the handlers: what `handleRead` makes of the bytes that it receives.
use tcp_test.Common.{
  ℕ, ◌≡◌, refl, ap, ◌∙◌, Bool, none, some, List, [], ◌∷◌, ◌++◌, map, All, Option-cases, inl, inr,
}
use tcp_test.Common.OrdMap.{find}
use tcp_test.Frame.{Frame, IsByte}
use tcp_test.Frame.RoundTrip.{Fits}
use tcp_test.Parser.{Received, receive}
use tcp_test.Parser.Chunks.{receive_all, concat, serialize_all, sent, receive_all-serialize}
use tcp_test.TcpClient.{TcpClient, deliver, deliver_all, handle_read}
use tcp_test.TcpClient.Waiting.{IsWaiting}
use tcp_test.TcpClient.Deliveries.{first_payload, Deliveries, deliveries}

deliver_all-append :
    (fs gs : List Frame) (c : TcpClient)
    → deliver_all c (fs ++ gs)
      ≡ (elim (deliver_all c fs) [ none ↦ none | some c' ↦ deliver_all c' gs ])
unfolding deliver_all
deliver_all-append [] gs c = refl
deliver_all-append (f ∷ fs) gs c = elim (Option-cases (deliver c f)) [
  | inl e ↦ rw (e, deliver_all) refl
  | inr (c', e) ↦ rw (e, deliver_all) (deliver_all-append fs gs c')
]

handle_read-frames :
    (pieces : List (List ℕ)) (c : TcpClient) (buffer : List ℕ)
    → handle_read c buffer pieces ≡ deliver_all c (receive_all buffer pieces).frames
unfolding handle_read receive_all deliver_all
handle_read-frames [] c buffer = refl
handle_read-frames (bytes ∷ more) c buffer =
    elim (Option-cases (deliver_all c (receive buffer bytes).frames)) [
      | inl e ↦
          rw
            (
              deliver_all-append (receive buffer bytes).frames
                  (receive_all (receive buffer bytes).buffer more).frames c,
              e,
              handle_read,
            )
            refl
      | inr (c', e) ↦
          rw
            (
              deliver_all-append (receive buffer bytes).frames
                  (receive_all (receive buffer bytes).buffer more).frames c,
              e,
              handle_read,
            )
            (handle_read-frames more c' (receive buffer bytes).buffer)
    ]

pub first_payload-sent :
    (enabled : Bool) (id : ℕ) (fs : List Frame)
    → first_payload id (map (sent enabled) fs) ≡ first_payload id fs
unfolding first_payload
first_payload-sent enabled id [] = refl
first_payload-sent enabled id (f ∷ fs) = rw (first_payload-sent enabled id fs) refl

-- Frames that fit the wire format are serialized one after the other and cut anyhow on their way: the
-- reader delivers them, and a promise that was registered under an id has the payload of the first
-- frame of that stream, or no value if there is none.
pub handle_read-sets :
    (enabled : Bool) (fs : List Frame) (pieces : List (List ℕ)) (c : TcpClient) (id p : ℕ)
    → All Fits fs
    → All (All IsByte) pieces
    → concat pieces ≡ serialize_all enabled fs
    → IsWaiting c
    → find id c.response_handlers ≡ some p
    → (r : TcpClient) × (handle_read c [] pieces ≡ some r) × (find p r.values ≡ first_payload id fs)
handle_read-sets enabled fs pieces c id p v b e w h =
    let d : Deliveries c (map (sent enabled) fs) = deliveries (map (sent enabled) fs) c w in
    (
      d.after,
      handle_read-frames pieces c []
          ∙ ap (λ (r : Received). deliver_all c r.frames)
              (receive_all-serialize enabled fs pieces v e b)
          ∙ d.runs,
      d.sets id p h ∙ first_payload-sent enabled id fs,
    )
