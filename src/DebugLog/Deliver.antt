-- ===== src/DebugLog/Deliver.antt =====
-- What the readers of the debug log see: messages in order while the queue has room, and nothing of
-- a message that fills it.
use blackmagic_espidf.Base.{
  ℕ, zero, suc, ◌≤◌, ◌≡◌, ◌≢◌, refl, sym, ◌∙◌, ap, Bool, true, false, ◌||◌, List, [], ◌∷◌, ◌++◌,
  append-nil, append_assoc, length, length-append, ◌==◌, ==_iff, Bool-cases, inl, inr, arith,
}
use blackmagic_espidf.Cbuf
use blackmagic_espidf.Cbuf.{Cbuf}
use blackmagic_espidf.Cbuf.Queue.{IsValid, contents, pop_refines, length-contents}
use blackmagic_espidf.DebugLog.{
  Log, queue_size, queue_laps, http_debug_putc, forward, drain, newline, http_buf_length,
}

abbrev flatten : List (List ℕ) → List ℕ
flatten [] = []
flatten (x ∷ xs) = x ++ flatten xs

-- What the readers have been sent, and what waits in the buffer for a newline.
abbrev pub output : Log → List ℕ
output l = flatten l.broadcast ++ l.buf

abbrev pub queued : Log → List ℕ
queued l = contents queue_size queue_laps l.queue

abbrev pub IsQueue : Log → Type 0
IsQueue l = IsValid queue_size queue_laps l.queue

flatten-snoc : (xs : List (List ℕ)) (x : List ℕ) → flatten (xs ++ x ∷ []) ≡ flatten xs ++ x
flatten-snoc [] x = append-nil x
flatten-snoc (y ∷ xs) x = rw (flatten-snoc xs x) (sym (append_assoc y (flatten xs) x))

http_debug_putc-output :
    (l : Log) (c : ℕ) (flush : Bool)
    → (output (http_debug_putc l c flush) ≡ output l ++ c ∷ [])
      × ((http_debug_putc l c flush).queue ≡ l.queue)
      × ((http_debug_putc l c flush).sem ≡ l.sem)
unfolding http_debug_putc
http_debug_putc-output l c flush =
    elim (Bool-cases (flush || length (l.buf ++ c ∷ []) == http_buf_length)) [
      | inl full ↦ rw full (
        rw (append-nil, flatten-snoc) (sym (append_assoc (flatten l.broadcast) l.buf (c ∷ []))),
        refl,
        refl,
      )
      | inr room ↦ rw room (sym (append_assoc (flatten l.broadcast) l.buf (c ∷ [])), refl, refl)
    ]

http_debug_putc-flush :
    (l : Log) (c : ℕ) (flush : Bool) → flush ≡ true → (http_debug_putc l c flush).buf ≡ []
unfolding http_debug_putc
http_debug_putc-flush l c flush e = rw e

queued-ne :
    (l : Log)
    → Cbuf.is_empty queue_size queue_laps l.queue ≡ false
    → Cbuf.len queue_size queue_laps l.queue ≢ 0
queued-ne l h e = ground (arith, (==_iff (Cbuf.len queue_size queue_laps l.queue) 0).1 e)

-- One round of the inner loop moves the oldest entry from the queue to the output.
forward-moves :
    (l : Log)
    → IsQueue l
    → Cbuf.len queue_size queue_laps l.queue ≢ 0
    → (c : ℕ) × (queued l ≡ c ∷ queued (forward l))
      × IsQueue (forward l)
      × (output (forward l) ≡ output l ++ c ∷ [])
      × (c ≡ newline → (forward l).buf ≡ [])
unfolding forward
forward-moves l v some_entry =
    let popped : ℕ × Cbuf = Cbuf.pop queue_size queue_laps l.queue in
    let l' : Log = record l { queue = popped.1 } in
    let (out, same, _) = http_debug_putc-output l' popped.0 (popped.0 == newline) in
    let (v', e) = pop_refines queue_size queue_laps l.queue v some_entry in
    (
      popped.0,
      e ∙ ap (λ q. popped.0 ∷ contents queue_size queue_laps q) (sym same),
      rw same v',
      out,
      λ nl. http_debug_putc-flush l' popped.0 (popped.0 == newline) ((==_iff _ _).1 nl),
    )

pub queued-empty : (l : Log) → Cbuf.is_empty queue_size queue_laps l.queue ≡ true → queued l ≡ []
queued-empty l h =
    length-nil (queued l) (length-contents queue_size queue_laps l.queue ∙ (==_iff _ _).0 h)
  where
    length-nil : (xs : List ℕ) → length xs ≡ 0 → xs ≡ []
    length-nil [] e = refl
    length-nil (x ∷ xs) e = absurd (omega arith)

drain-stop :
    (fuel : ℕ) (l : Log)
    → Cbuf.is_empty queue_size queue_laps l.queue ≡ true
    → drain (suc fuel) l ≡ l
unfolding drain
drain-stop fuel l h = ground arith

drain-step :
    (fuel : ℕ) (l : Log)
    → Cbuf.is_empty queue_size queue_laps l.queue ≡ false
    → drain (suc fuel) l ≡ drain fuel (forward l)
unfolding drain
drain-step fuel l h = ground arith

drain-nothing : (fuel : ℕ) (l : Log) → queued l ≡ [] → drain fuel l ≡ l
drain-nothing zero l e = unfold drain in refl
drain-nothing (suc fuel) l e =
    drain-stop fuel l
      ((==_iff _ _).1 (sym (length-contents queue_size queue_laps l.queue) ∙ ap length e))

-- The inner loop empties the queue into the output, on fuel for each entry.
pub drain-all :
    (fuel : ℕ) (l : Log)
    → IsQueue l
    → length (queued l) ≤ fuel
    → (output (drain fuel l) ≡ output l ++ queued l)
      × (queued (drain fuel l) ≡ [])
      × IsQueue (drain fuel l)
drain-all zero l v enough =
    let none : queued l ≡ [] =
      queued-empty l (ground (arith, length-contents queue_size queue_laps l.queue)) in
    unfold drain in (rw none (sym (append-nil (output l))), none, v)
drain-all (suc fuel) l v enough = elim (Bool-cases (Cbuf.is_empty queue_size queue_laps l.queue)) [
  | inl empty ↦
      rw (drain-stop fuel l empty)
        (rw (queued-empty l empty) (sym (append-nil (output l))), queued-empty l empty, v)
  | inr more ↦
      let (c, front, v', out, _) = forward-moves l v (queued-ne l more) in
      let (out', none, v'') = drain-all fuel (forward l) v' (omega (arith, ap length front)) in
      rw (drain-step fuel l more) (
        out'
            ∙ ap (λ o. o ++ queued (forward l)) out
            ∙ append_assoc (output l) (c ∷ []) (queued (forward l))
            ∙ ap (λ q. output l ++ q) (sym front),
        none,
        v'',
      )
]

-- A newline at the end of the queue leaves nothing in the buffer of `http_debug_putc`.
pub drain-newline :
    (fuel : ℕ) (l : Log) (xs : List ℕ)
    → IsQueue l
    → length (queued l) ≤ fuel
    → queued l ≡ xs ++ newline ∷ []
    → (drain fuel l).buf ≡ []
drain-newline zero l xs v enough e =
    absurd (omega (arith, ap length e, length-append {0} xs (newline ∷ [])))
drain-newline (suc fuel) l xs v enough e =
    elim (Bool-cases (Cbuf.is_empty queue_size queue_laps l.queue)) [
      | inl empty ↦ absurd (
          omega (
            arith,
            ap length (sym (queued-empty l empty) ∙ e),
            length-append {0} xs (newline ∷ []),
          ))
      | inr more ↦
          let (c, front, v', out, flushed) = forward-moves l v (queued-ne l more) in
          rw (drain-step fuel l more) (
            rest xs (forward l) c v' (omega (arith, ap length front)) flushed (sym front ∙ e)
              (drain-newline fuel (forward l)))
    ]
  where
    rest :
        (ys : List ℕ) (l' : Log) (c : ℕ)
        → IsQueue l'
        → length (queued l') ≤ fuel
        → (c ≡ newline → l'.buf ≡ [])
        → c ∷ queued l' ≡ ys ++ newline ∷ []
        → ((zs : List ℕ)
            → IsQueue l'
            → length (queued l') ≤ fuel
            → queued l' ≡ zs ++ newline ∷ []
            → (drain fuel l').buf ≡ [])
        → (drain fuel l').buf ≡ []
    rest [] l' c v' few flushed q ih =
        ap (λ l''. l''.buf) (drain-nothing fuel l' (cc)) ∙ flushed (cc)
    rest (y ∷ ys) l' c v' few flushed q ih = ih ys v' few (cc)
