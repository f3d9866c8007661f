-- ===== src/TcpServer/Clients.antt =====
-- The table of the connections.
use tcp_test.Common.{
  ℕ, ◌≡◌, refl, subst, ◌∙◌, Bool, true, Option, none, some, List, [], ◌∷◌, arith, Option-cases, inl,
  inr,
}
use tcp_test.Common.OrdMap.{OrdMap, find, assign, erase, find-assign}
use tcp_test.TcpClient.{SendResult}
use tcp_test.ClientHandler
use tcp_test.ClientHandler.{ClientHandler, new_handler, SendEnd, read_bytes, write_round}
use tcp_test.TcpServer.{
  TcpServer, new_server, Notice, disconnects, notify, Outcome, continues, terminated, has_threads,
  accept_client, handle_client_disconnect, response, read_client, write_client,
}

-- What the server's threads do with the table.
pub data Event : Type 0 where
  accepts leaves : ℕ → Event
  responds : Bool → ℕ → ℕ → ℕ → ℕ → List ℕ → Event
  reads : ℕ → List ℕ → Event
  writes : ℕ → List SendResult → Event

abbrev pub server_of : TcpServer → Option (SendEnd × TcpServer) → TcpServer
server_of s none = s
server_of s (some (sent, s')) = s'

unfoldable pub happens : TcpServer → Event → Outcome
happens s (accepts fd) = accept_client s fd
happens s (leaves id) = handle_client_disconnect s id
happens s (responds enabled u id stream sequence payload) =
    continues (response enabled u s id stream sequence payload) []
happens s (reads id bytes) = continues (read_client s id bytes).1 []
happens s (writes id results) = continues (server_of s (write_client s id results)) []

unfoldable pub run : TcpServer → List Event → Outcome
run s [] = continues s []
run s (e ∷ es) = elim (happens s e) [
  | continues s' notices ↦ run s' es
  | terminated notices ↦ terminated notices
]

-- Every connection in the table has joinable threads.
abbrev pub Threaded : TcpServer → Type 0
Threaded s = (k : ℕ) (h : ClientHandler) → find k s.clients ≡ some h → has_threads h ≡ true

assign-Threaded :
    (s : TcpServer) (id : ℕ) (h : ClientHandler)
    → Threaded s
    → has_threads h ≡ true
    → Threaded (record s { clients = assign id h s.clients })
assign-Threaded s id h t j k h' e = ground (arith, find-assign id k h s.clients, t k h', j, e)

erase-missing : (id : ℕ) (m : OrdMap ClientHandler) → find id m ≡ none → erase id m ≡ m
unfolding find erase
erase-missing id [] e = refl
erase-missing id ((k, h) ∷ m) e = ground (arith, erase-missing id m)

new_handler-has_threads : (fd : ℕ) → has_threads (new_handler fd) ≡ true
unfolding has_threads new_handler ClientHandler.start
new_handler-has_threads fd = refl

abbrev After : (TcpServer → Type 0) → Outcome → Type 0
After P (continues s notices) = P s
After P (terminated notices) = Unit {0}

accept-Threaded : (s : TcpServer) (fd : ℕ) → Threaded s → After Threaded (accept_client s fd)
unfolding accept_client
accept-Threaded s fd t = elim (Option-cases (find fd s.clients)) [
  | inl e ↦
      rw (e, accept_client) (assign-Threaded s fd (new_handler fd) t (new_handler-has_threads fd))
  | inr (h, e) ↦ rw (e, t fd h e, accept_client) tt
]

leave-Threaded :
    (s : TcpServer) (id : ℕ) → Threaded s → After Threaded (handle_client_disconnect s id)
unfolding handle_client_disconnect
leave-Threaded s id t = elim (Option-cases (find id s.clients)) [
  | inl e ↦ rw (e, handle_client_disconnect, erase-missing id s.clients e) t
  | inr (h, e) ↦ rw (e, t id h e, handle_client_disconnect) tt
]

response-Threaded :
    (enabled : Bool) (u : ℕ) (s : TcpServer) (id stream sequence : ℕ) (payload : List ℕ)
    → Threaded s
    → Threaded (response enabled u s id stream sequence payload)
unfolding response ClientHandler.write has_threads
response-Threaded enabled u s id stream sequence payload t =
    elim (Option-cases (find id s.clients)) [
      | inl e ↦ rw (e, response) t
      | inr (h, e) ↦ rw (e, response) (assign-Threaded s id _ t (t id h e))
    ]

read-Threaded :
    (s : TcpServer) (id : ℕ) (bytes : List ℕ) → Threaded s → Threaded (read_client s id bytes).1
unfolding read_client read_bytes has_threads
read-Threaded s id bytes t = elim (Option-cases (find id s.clients)) [
  | inl e ↦ rw (e, read_client) t
  | inr (h, e) ↦ rw (e, read_client) (assign-Threaded s id _ t (t id h e))
]

-- A round of the writer keeps the handler's threads.
round-has_threads :
    (h : ClientHandler) (results : List SendResult) (sent : SendEnd) (h' : ClientHandler)
    → write_round h results ≡ some (sent, h')
    → has_threads h' ≡ has_threads h
unfolding write_round has_threads
round-has_threads h results sent h' e = ground (arith, e)

write-Threaded :
    (s : TcpServer) (id : ℕ) (results : List SendResult)
    → Threaded s
    → Threaded (server_of s (write_client s id results))
unfolding write_client
write-Threaded s id results t = elim (Option-cases (find id s.clients)) [
  | inl e ↦ rw (e, write_client) t
  | inr (h, e) ↦ elim (Option-cases (write_round h results)) [
    | inl e' ↦ rw (e, e', write_client) t
    | inr ((sent, h'), e') ↦
        rw (e, e', write_client)
          (assign-Threaded s id h' t (round-has_threads h results sent h' e' ∙ t id h e))
  ]
]

happens-Threaded : (s : TcpServer) (e : Event) → Threaded s → After Threaded (happens s e)
unfolding happens
happens-Threaded s (accepts fd) t = accept-Threaded s fd t
happens-Threaded s (leaves id) t = leave-Threaded s id t
happens-Threaded s (responds enabled u id stream sequence payload) t =
    response-Threaded enabled u s id stream sequence payload t
happens-Threaded s (reads id bytes) t = read-Threaded s id bytes t
happens-Threaded s (writes id results) t = write-Threaded s id results t

run-Threaded : (es : List Event) (s : TcpServer) → Threaded s → After Threaded (run s es)
unfolding run
run-Threaded [] s t = t
run-Threaded (e ∷ es) s t = further (happens s e) (happens-Threaded s e t) (run-Threaded es)
  where
    further :
        (o : Outcome)
        → After Threaded o
        → ((s' : TcpServer) → Threaded s' → After Threaded (run s' es))
        → After Threaded
            (elim o [ continues s' notices ↦ run s' es | terminated notices ↦ terminated notices ])
    further (continues s' notices) t' next = next s' t'
    further (terminated notices) t' next = tt

-- Whatever a server's threads have done, as long as it runs: a connection that ends while it is in the
-- table terminates the program, as its handler is destroyed with joinable threads.
pub disconnect-terminates :
    (es : List Event) (s : TcpServer) (notices : List Notice) (id : ℕ) (h : ClientHandler)
    → run new_server es ≡ continues s notices
    → find id s.clients ≡ some h
    → (told : List Notice) × (handle_client_disconnect s id ≡ terminated told)
unfolding handle_client_disconnect find
disconnect-terminates es s notices id h ran there =
    let t : Threaded s =
      subst (After Threaded) ran (run-Threaded es new_server (λ k h' e. ground (arith, e))) in
    (notify s (disconnects id), rw (there, t id h there, handle_client_disconnect) refl)
