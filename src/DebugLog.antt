-- ===== src/DebugLog.antt =====
-- The path of a debug message: `putc_remote`, `debug_putc` and `dbg_task` of main/platform.c, and
-- `http_debug_putc` of main/http.c. The queue between the tasks is a buffer of main/CBUF.h with 256
-- entries and indices of 8 bits.
pub mod Deliver
pub mod Messages
use blackmagic_espidf.Base.{
  ℕ, zero, suc, ◌+◌, Bool, true, false, ◌||◌, List, [], ◌∷◌, ◌++◌, length, ◌==◌, if◌then◌else◌,
}
use blackmagic_espidf.Cbuf
use blackmagic_espidf.Cbuf.{Cbuf}

-- `sizeof(m_entry)`, and how often that fits a `uint8_t`.
abbrev pub queue_size : ℕ
queue_size = 256

abbrev pub queue_laps : ℕ
queue_laps = 1

-- `dbg_msg_queue` with its binary semaphore, and the static buffer of `http_debug_putc` with what
-- it has passed to `cgiWebsockBroadcast`, the oldest first.
pub record Log : Type 0 where
  pub queue : Cbuf
  pub sem : Bool
  pub buf : List ℕ
  pub broadcast : List (List ℕ)

unfoldable pub debug_putc : Log → ℕ → Bool → Log
debug_putc l c flush = record l {
  queue = Cbuf.push queue_size queue_laps l.queue c;
  sem = if flush then true else l.sem;
}

abbrev pub newline : ℕ
newline = 10

abbrev pub carriage_return : ℕ
carriage_return = 13

unfoldable pub putc_remote : Log → ℕ → Log
unfolding debug_putc
putc_remote l c =
    debug_putc (if c == newline then debug_putc l carriage_return false else l) c (c == newline)

-- A message, character by character.
unfoldable pub write : Log → List ℕ → Log
unfolding putc_remote
write l [] = l
write l (c ∷ cs) = write (putc_remote l c) cs

abbrev pub http_buf_length : ℕ
http_buf_length = 256

unfoldable pub http_debug_putc : Log → ℕ → Bool → Log
http_debug_putc l c flush =
    let buf' : List ℕ = l.buf ++ c ∷ [] in
    (if flush || length buf' == http_buf_length
      then record l { buf = []; broadcast = l.broadcast ++ buf' ∷ [] }
      else record l { buf = buf' })

-- One round of the inner loop of `dbg_task`.
unfoldable pub forward : Log → Log
unfolding http_debug_putc
forward l =
    let (c, queue') = Cbuf.pop queue_size queue_laps l.queue in
    http_debug_putc (record l { queue = queue' }) c (c == newline)

-- The inner loop, on fuel.
unfoldable pub drain : ℕ → Log → Log
unfolding forward
drain zero l = l
drain (suc fuel) l = elim (Cbuf.is_empty queue_size queue_laps l.queue) [
  | true ↦ l
  | false ↦ drain fuel (forward l)
]

-- One round of the outer loop, once the semaphore can be taken. An index of 8 bits counts less than
-- 256 entries.
unfoldable pub dbg_task : Log → Log
dbg_task l = if l.sem then drain queue_size (record l { sem = false }) else l
