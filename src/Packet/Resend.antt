-- ===== src/Packet/Resend.antt =====
-- Acknowledgement: how often a packet is sent, and a sender and a receiver together over a line
-- that corrupts checksums.
use Prim.Native.Nat.{min}
use blackmagic_espidf.Base.{
  ℕ, zero, suc, ◌≤◌, ◌≡◌, ◌≢◌, refl, ◌∙◌, ap, true, false, List, [], ◌∷◌, ◌++◌, map, map-append,
  append_assoc, append-nil, length, ◌==◌, if◌then◌else◌, Bool-cases, inl, inr, arith,
}
use blackmagic_espidf.Base.Bytes.{AreBytes}
use blackmagic_espidf.Base.Text.{strtol16, eq_long}
use blackmagic_espidf.Packet.Encode.{
  put_chars, frame, frame2, send_until_acked, max_tries, putpacket, putpacket2,
}
use blackmagic_espidf.Packet.Decode.{
  Input, Settings, Action, char, packet, putchar, remote_packet_process, returned, getpacket, after,
}
use blackmagic_espidf.Packet.Frame.{checksum, getpacket-frame, getpacket-bad_checksum, frames_agree}

-- `n` transmissions of the same characters.
abbrev pub copies : ℕ → List ℕ → List ℕ
copies zero x = []
copies (suc n) x = x ++ copies n x

-- How many answers come before the first `+`; when they end, timeouts follow, more than are read.
abbrev unacked : List ℕ → ℕ
unacked [] = max_tries
unacked (a ∷ as') = if a == b'+' then 0 else suc (unacked as')

zero-min : (n : ℕ) → min 0 n ≡ 0
zero-min n = omega arith

min-zero : (n : ℕ) → min n 0 ≡ 0
min-zero n = omega arith

suc-min : (m n : ℕ) → suc (min m n) ≡ min (suc m) (suc n)
suc-min m n = omega arith

next_count : (t m : ℕ) → suc t ≤ m → suc (min t m) ≡ min (suc t) m
next_count t m h = omega arith

copies-eq : (x : List ℕ) {m n : ℕ} → m ≡ n → copies m x ≡ copies n x
copies-eq x e = ap (λ n. copies n x) e

send_until_acked-copies :
    (t : ℕ) (x answers : List ℕ)
    → t ≤ max_tries
    → (send_until_acked t true x answers).0 ≡ copies (suc (min t (unacked answers))) x
unfolding send_until_acked
send_until_acked-copies zero x [] h = rw append-nil
send_until_acked-copies zero x (a ∷ as') h = rw (zero-min, append-nil)
send_until_acked-copies (suc t) x [] h =
    ap (λ l. x ++ l)
      (send_until_acked-copies t x [] (omega arith) ∙ copies-eq x (next_count t max_tries h))
send_until_acked-copies (suc t) x (a ∷ as') h = elim (Bool-cases (a == b'+')) [
  | inl acked ↦ rw acked (rw (min-zero (suc t), append-nil))
  | inr unread ↦ rw unread (
      ap (λ l. x ++ l)
        (send_until_acked-copies t x as' (omega arith) ∙ copies-eq x (suc-min t (unacked as'))))
]

-- In no-ack mode `gdb_putpacket` sends its frame once and reads no answer. Otherwise it sends the
-- frame once more for each answer in front of the first `+`, and four times at most.
pub putpacket-copies :
    (pktstart : ℕ) (p answers : List ℕ)
    → (putpacket true pktstart p answers ≡ (frame pktstart p, answers))
      × ((putpacket false pktstart p answers).0
          ≡ copies (suc (min 3 (unacked answers))) (frame pktstart p))
unfolding putpacket
putpacket-copies pktstart p answers = (
  unfold send_until_acked in refl,
  send_until_acked-copies 3 (frame pktstart p) answers (omega arith),
)

-- `gdb_putpacket2` is `gdb_putpacket` of the two packets joined when acknowledgements are on. In
-- no-ack mode, where no `+` comes (the answers are timeouts), it sends four frames instead of one.
pub putpacket2-copies :
    (p q answers : List ℕ)
    → (putpacket2 p q answers ≡ putpacket false b'$' (p ++ q) answers)
      × ((putpacket2 p q []).0 ≡ copies 4 (frame b'$' (p ++ q)))
      × ((putpacket true b'$' (p ++ q) []).0 ≡ frame b'$' (p ++ q))
unfolding putpacket2 putpacket
putpacket2-copies p q answers = (
  ap (λ x. send_until_acked max_tries true x answers) joined,
  send_until_acked-copies 3 (frame2 p q) [] (omega arith) ∙ ap (copies 4) joined,
  unfold send_until_acked in refl,
)
  where
    joined : frame2 p q ≡ frame b'$' (p ++ q)
    joined = (frames_agree p q).0

-- The frame of `p` with another pair of characters in the place of its checksum.
abbrev damaged : List ℕ → ℕ × ℕ → List ℕ
damaged p (a, b) = b'$' ∷ ((put_chars p 0).0 ++ b'#' ∷ a ∷ b ∷ [])

abbrev pub damaged_all : List ℕ → List (ℕ × ℕ) → List ℕ
damaged_all p [] = []
damaged_all p (d ∷ ds) = damaged p d ++ damaged_all p ds

-- None of the pairs reads as the checksum of `p`.
abbrev NoneRight : List ℕ → List (ℕ × ℕ) → Type 0
NoneRight p [] = Unit
NoneRight p ((a, b) ∷ ds) = (eq_long (checksum p) (strtol16 (a ∷ b ∷ [])) ≡ false) × NoneRight p ds

-- The characters that the receiver answers with.
abbrev pub answered : List Action → List ℕ
answered [] = []
answered (putchar c ∷ acts) = c ∷ answered acts
answered (remote_packet_process buf ∷ acts) = answered acts

abbrev nacks : List (ℕ × ℕ) → List Action
nacks [] = []
nacks (d ∷ ds) = putchar b'-' ∷ nacks ds

-- The receiver refuses every damaged frame and accepts the good one behind them.
getpacket-damaged_all :
    (k : Settings) (p : List ℕ) (ds : List (ℕ × ℕ)) (rest : List Input)
    → k.no_ack_mode ≡ false
    → k.remote_som ≢ b'$'
    → AreBytes p
    → length p ≤ k.size
    → NoneRight p ds
    → getpacket k (map char (damaged_all p ds) ++ (map char (frame b'$' p) ++ rest))
      ≡ (nacks ds ++ putchar b'+' ∷ [], returned (packet p) rest)
getpacket-damaged_all k p [] rest mode som bytes fits bad =
    getpacket-frame k p rest som bytes fits
    ∙ ap (λ b. ((if b then [] else putchar b'+' ∷ []), returned (packet p) rest)) mode
getpacket-damaged_all k p ((a, b) ∷ ds) rest mode som bytes fits bad =
    let behind : List Input = map char (damaged_all p ds) ++ (map char (frame b'$' p) ++ rest) in
    simp (map-append, append_assoc)
      (getpacket-bad_checksum k p a b behind som bytes fits bad.0
        ∙ ap (λ no_ack. after (if no_ack then [] else putchar b'-' ∷ []) (getpacket k behind)) mode
        ∙ ap (after (putchar b'-' ∷ []))
            (getpacket-damaged_all k p ds rest mode som bytes fits bad.1))

unacked-nacks : (ds : List (ℕ × ℕ)) → unacked (answered (nacks ds ++ putchar b'+' ∷ [])) ≡ length ds
unacked-nacks [] = refl
unacked-nacks (d ∷ ds) = ap suc (unacked-nacks ds)

-- A sender and a receiver with acknowledgements, over a line that spoils the checksums of the
-- first frames, three at most: the receiver returns the payload and leaves what follows unread,
-- and from its answers the sender sends one frame for each spoilt one and one more, no fewer and
-- no more.
pub resend_delivers :
    (k : Settings) (p : List ℕ) (ds : List (ℕ × ℕ)) (rest : List Input)
    → k.no_ack_mode ≡ false
    → k.remote_som ≢ b'$'
    → AreBytes p
    → length p ≤ k.size
    → NoneRight p ds
    → length ds ≤ 3
    → (acts : List Action) × (getpacket k (map char (damaged_all p ds ++ frame b'$' p) ++ rest)
        ≡ (acts, returned (packet p) rest))
      × ((putpacket false b'$' p (answered acts)).0 ≡ copies (suc (length ds)) (frame b'$' p))
resend_delivers k p ds rest mode som bytes fits bad few = (
  nacks ds ++ putchar b'+' ∷ [],
  rw (map-append, append_assoc) (getpacket-damaged_all k p ds rest mode som bytes fits bad),
  (putpacket-copies b'$' p _).1 ∙ copies-eq (frame b'$' p) (ap suc count),
)
  where
    count : min 3 (unacked (answered (nacks ds ++ putchar b'+' ∷ []))) ≡ length ds
    count = omega (arith, unacked-nacks ds)
