-- ===== src/DebugLog/Messages.antt =====
-- Whole messages through the debug log: all of them while the queue has room, and nothing of one
-- that fills it.
use blackmagic_espidf.Base.{
  ℕ, ◌+◌, ◌≤◌, ◌<◌, ◌≡◌, ◌≢◌, refl, sym, ◌∙◌, ap, Bool, true, false, List, [], ◌∷◌, ◌++◌,
  append-nil, append_assoc, length, length-append, ◌==◌, ==_iff, if◌then◌else◌, Bool-cases, inl,
  inr, arith,
}
use blackmagic_espidf.Cbuf
use blackmagic_espidf.Cbuf.Queue.{push_refines, push-one_lap, length-contents}
use blackmagic_espidf.DebugLog.{
  Log, queue_size, queue_laps, debug_putc, putc_remote, write, dbg_task, newline, carriage_return,
}
use blackmagic_espidf.DebugLog.Deliver.{
  output, queued, IsQueue, queued-empty, drain-all, drain-newline,
}

-- How `putc_remote` sends a message: a carriage return in front of each newline.
abbrev as_sent : List ℕ → List ℕ
as_sent [] = []
as_sent (c ∷ cs) = if c == newline then carriage_return ∷ c ∷ as_sent cs else c ∷ as_sent cs

-- What a writer adds to the log, and what it leaves alone.
record Added (l l' : Log) (xs : List ℕ) : Type 0 where
  valid : IsQueue l'
  more : queued l' ≡ queued l ++ xs
  held : l'.buf ≡ l.buf
  gone : l'.broadcast ≡ l.broadcast

debug_putc-Added :
    (l : Log) (c : ℕ) (flush : Bool)
    → IsQueue l
    → length (queued l) < 255
    → Added l (debug_putc l c flush) (c ∷ [])
unfolding debug_putc
debug_putc-Added l c flush v room =
    let n : Cbuf.len queue_size queue_laps l.queue < 255 =
      omega (arith, length-contents queue_size queue_laps l.queue) in
    let (v', e) = push_refines queue_size queue_laps l.queue c v (omega arith) (omega arith) in
    record { valid = v'; more = e; held = refl; gone = refl }

Added-trans :
    {l l' l'' : Log} {xs ys : List ℕ} → Added l l' xs → Added l' l'' ys → Added l l'' (xs ++ ys)
Added-trans {l} {xs = xs} {ys = ys} a b = record {
  valid = b.valid;
  more = b.more ∙ ap (λ q. q ++ ys) a.more ∙ append_assoc (queued l) xs ys;
  held = b.held ∙ a.held;
  gone = b.gone ∙ a.gone;
}

putc_remote-Added :
    (l : Log) (c : ℕ)
    → IsQueue l
    → length (queued l) + length (as_sent (c ∷ [])) ≤ 255
    → Added l (putc_remote l c) (as_sent (c ∷ []))
unfolding putc_remote
putc_remote-Added l c v room = elim (Bool-cases (c == newline)) [
  | inl nl ↦
      let first : Added l (debug_putc l carriage_return false) (carriage_return ∷ []) =
        debug_putc-Added l carriage_return false v (nl_room nl) in
      rw nl (
        Added-trans first (
          debug_putc-Added (debug_putc l carriage_return false) c true first.valid
            (after_first nl (ap length first.more))))
  | inr plain ↦ rw plain (debug_putc-Added l c false v (plain_room plain))
]
  where
    nl_room : (c == newline) ≡ true → length (queued l) < 255
    nl_room nl = ground arith

    plain_room : (c == newline) ≡ false → length (queued l) < 255
    plain_room plain = ground arith

    after_first :
        (c == newline) ≡ true
        → length (queued (debug_putc l carriage_return false))
          ≡ length (queued l ++ carriage_return ∷ [])
        → length (queued (debug_putc l carriage_return false)) < 255
    after_first nl e = ground (arith, e, length-append {0} (queued l) (carriage_return ∷ []))

as_sent-append : (xs ys : List ℕ) → as_sent (xs ++ ys) ≡ as_sent xs ++ as_sent ys
as_sent-append [] ys = refl
as_sent-append (x ∷ xs) ys = elim (Bool-cases (x == newline)) [
  | inl nl ↦ rw (nl, as_sent-append xs ys)
  | inr plain ↦ rw (plain, as_sent-append xs ys)
]

-- A message of at most as many characters as the queue can take on is queued whole, in order.
write-Added :
    (cs : List ℕ) (l : Log)
    → IsQueue l
    → length (queued l) + length (as_sent cs) ≤ 255
    → Added l (write l cs) (as_sent cs)
unfolding write
write-Added [] l v room = record {
  valid = v;
  more = sym (append-nil (queued l));
  held = refl;
  gone = refl;
}
write-Added (c ∷ cs) l v room =
    let split : as_sent (c ∷ cs) ≡ as_sent (c ∷ []) ++ as_sent cs = as_sent-append (c ∷ []) cs in
    let sum : length (as_sent (c ∷ cs)) ≡ length (as_sent (c ∷ [])) + length (as_sent cs) =
      ap length split ∙ length-append (as_sent (c ∷ [])) (as_sent cs) in
    let first : Added l (putc_remote l c) (as_sent (c ∷ [])) =
      putc_remote-Added l c v (omega arith) in
    rw split (
      Added-trans first (
        write-Added cs (putc_remote l c) first.valid
          (omega (arith, ap length first.more, length-append {0} (queued l) (as_sent (c ∷ []))))))

write-sem : (text : List ℕ) (l : Log) → (write l (text ++ newline ∷ [])).sem ≡ true
unfolding write putc_remote
write-sem [] l = refl
write-sem (c ∷ text) l = write-sem text (putc_remote l c)

-- A message that ends in a newline reaches the readers of the debug log whole and in order, behind
-- what was queued before, if it and what is queued are 255 characters at most, carriage returns
-- included: one round of `dbg_task` sends it all, and empties the queue and the buffer.
pub dbg_task-delivers :
    (l : Log) (text : List ℕ)
    → IsQueue l
    → length (queued l) + length (as_sent (text ++ newline ∷ [])) ≤ 255
    → let l' = dbg_task (write l (text ++ newline ∷ [])) in
      (output l' ≡ output l ++ (queued l ++ as_sent (text ++ newline ∷ [])))
      × (queued l' ≡ [])
      × (l'.buf ≡ [])
      × IsQueue l'
unfolding dbg_task
dbg_task-delivers l text v room =
    let message : List ℕ = text ++ newline ∷ [] in
    let l1 : Log = write l message in
    let l2 : Log = record l1 { sem = false } in
    let a : Added l l1 (as_sent message) = write-Added message l v room in
    let few : length (queued l2) ≤ queue_size =
      omega (arith, ap length a.more, length-append {0} (queued l) (as_sent message)) in
    let (out, none, v') = drain-all queue_size l2 a.valid few in
    let last : queued l2 ≡ (queued l ++ (as_sent text ++ carriage_return ∷ [])) ++ newline ∷ [] =
      a.more ∙ rw (as_sent-append text (newline ∷ []), append_assoc, append_assoc) in
    rw (write-sem text l) (
      out ∙ ap_output l l1 a.gone a.held ∙ ap (λ q. output l ++ q) a.more,
      none,
      drain-newline queue_size l2 (queued l ++ (as_sent text ++ carriage_return ∷ [])) a.valid few
          last,
      v',
    )
  where
    ap_output :
        (l l1 : Log)
        → l1.broadcast ≡ l.broadcast
        → l1.buf ≡ l.buf
        → output l1 ++ queued l1 ≡ output l ++ queued l1
    ap_output l l1 gone held = rw (gone, held)

write-snoc :
    (l : Log) (text : List ℕ) (c : ℕ) → write l (text ++ c ∷ []) ≡ putc_remote (write l text) c
unfolding write
write-snoc l [] c = refl
write-snoc l (x ∷ text) c = write-snoc (putc_remote l x) text c

putc_remote-plain : (l : Log) (c : ℕ) → c ≢ newline → putc_remote l c ≡ debug_putc l c false
unfolding putc_remote
putc_remote-plain l c plain = elim (Bool-cases (c == newline)) [
  | inl nl ↦ absurd (plain ((==_iff _ _).0 nl))
  | inr other ↦ rw other
]

-- A message without a newline at its end, that brings the queue to 256 characters, leaves the queue
-- empty: what was queued and the message are lost to `dbg_task`.
write-overflow :
    (l : Log) (text : List ℕ) (c : ℕ)
    → IsQueue l
    → c ≢ newline
    → length (queued l) + length (as_sent text) ≡ 255
    → queued (write l (text ++ c ∷ [])) ≡ []
write-overflow l text c v plain full =
    let l1 : Log = write l text in
    let a : Added l l1 (as_sent text) = write-Added text l v (omega arith) in
    let count : Cbuf.len queue_size queue_laps l1.queue + 1 ≡ queue_size = omega (
      arith,
      length-contents queue_size queue_laps l1.queue,
      ap length a.more,
      length-append {0} (queued l) (as_sent text),
    ) in
    rw (write-snoc l text c, putc_remote-plain l1 c plain)
      (queued-empty (debug_putc l1 c false) (
        unfold debug_putc in
        (push-one_lap queue_size queue_laps l1.queue c a.valid refl (omega arith) count).1))
