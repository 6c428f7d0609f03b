-- ===== src/Tests/Tftp.antt =====
-- The TFTP transfers of main/ota-tftp.c on concrete datagrams.
use blackmagic_espidf.Base.{
  ℕ, ◌≡◌, refl, true, none, some, List, [], ◌∷◌, ◌++◌, length, replicate, arith,
}
use blackmagic_espidf.Base.Text.{codes}
use blackmagic_espidf.Tftp.Packet.{Netbuf, err_ok, err_timeout, rrq_packet}
use blackmagic_espidf.Tftp.Receive.{
  Recv, datagram, timeout, Action, returned, World, State, dispatch, on_datagram, accept_chunks,
  connections, write_chunks, acked, round, receive_loop, receive_data,
}
use blackmagic_espidf.Tftp.Rounds.{IsHealthy, IsData, written}
use blackmagic_espidf.Tftp.Transfer.{Transfer, last, more, again, late, receive_data-completes}
use blackmagic_espidf.Tftp.Limits.{receive_data-counts}
use blackmagic_espidf.Tftp.Silence.{receive_loop-gives_up}

-- `firm`, `octet`, cut into two segments.
abbrev request : Netbuf
request = (0 ∷ 2 ∷ codes "fi") ∷ (codes "rm" ++ 0 ∷ (codes "octet" ++ 0 ∷ [])) ∷ []

abbrev unended : Netbuf
unended = (0 ∷ 2 ∷ codes "firm") ∷ (0 ∷ codes "oct") ∷ []

abbrev wanted : Netbuf
wanted = rrq_packet (codes "a.bin") ∷ []

abbrev world : World
world = record { junk = 0; send_result = λ _. err_ok; write_result = λ _ _. true; callback = true }

world-IsHealthy : IsHealthy world
world-IsHealthy = record { sends = λ p. refl; writes = λ n chunk. refl }

-- A file of 513 bytes, in two blocks: the first comes twice, and there is a timeout.
abbrev front : List ℕ
front = replicate 512 5

abbrev block1 : List ℕ
block1 = 0 ∷ 3 ∷ 0 ∷ 1 ∷ front

abbrev block2 : List ℕ
block2 = 0 ∷ 3 ∷ 0 ∷ 2 ∷ []

block1-IsData : IsData 1 front block1 []
block1-IsData = record { small = omega arith; header = omega arith; content = refl }

-- The second block comes in two segments.
block2-IsData : IsData 2 (6 ∷ []) block2 ((6 ∷ []) ∷ [])
block2-IsData = record { small = omega arith; header = omega arith; content = refl }

abbrev events : List Recv
events =
    datagram 1 (block1 ∷ [])
    ∷ datagram 1 (block1 ∷ [])
    ∷ timeout
    ∷ datagram 1 (block2 ∷ (6 ∷ []) ∷ [])
    ∷ timeout
    ∷ []

transfer : Transfer (timeout ∷ []) 1 10 (front ++ 6 ∷ []) events
transfer = more 1 block1 [] front (6 ∷ []) refl block1-IsData refl (
    again 1 block1 [] front (omega arith) block1-IsData (
      late (omega arith) (omega arith) (last 1 block2 ((6 ∷ []) ∷ []) block2-IsData (omega arith))))

receive_data-completes_example :
    (acts : List Action) × (receive_data world (some 9) events
      ≡ (acts, returned err_ok (length (front ++ 6 ∷ [])) (timeout ∷ [])))
    × (written acts ≡ front ++ 6 ∷ [])
receive_data-completes_example = receive_data-completes world (some 9) world-IsHealthy transfer

abbrev small : List Recv
small = datagram 1 ((0 ∷ 3 ∷ 0 ∷ 1 ∷ []) ∷ (6 ∷ 7 ∷ []) ∷ []) ∷ []

receive_data-counts_example : 2 ≡ length (written (receive_data world none small).0)
unfolding receive_data receive_loop round dispatch on_datagram accept_chunks connections
    write_chunks acked
receive_data-counts_example =
    receive_data-counts world none small [] (receive_data world none small).0 2 refl

abbrev stalled : State
stalled = record { received_len = 512; block = 2; retries = 3; peer = none }

receive_loop-gives_up_example :
    (acts : List Action) × (receive_loop world stalled (replicate 4 timeout ++ small)
      ≡ (acts, returned err_timeout 512 small))
    × (written acts ≡ [])
receive_loop-gives_up_example = receive_loop-gives_up world stalled small
