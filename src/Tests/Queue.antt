-- ===== src/Tests/Queue.antt =====
-- The circular buffer and the debug log on concrete entries.
use blackmagic_espidf.Base.{◌≡◌, refl, true, false, [], ◌∷◌, replicate, arith}
use blackmagic_espidf.Cbuf
use blackmagic_espidf.Cbuf.{Cbuf}
use blackmagic_espidf.Cbuf.Queue.{IsValid, contents, push-one_lap}
use blackmagic_espidf.DebugLog.{Log, write, dbg_task, newline}
use blackmagic_espidf.DebugLog.Deliver.{IsQueue, queued, output}
use blackmagic_espidf.DebugLog.Messages.{dbg_task-delivers}

-- Four entries under indices of 8 bits; the entries 7, 8 and 9 lie round the end.
abbrev ring : Cbuf
ring = record { m_get_idx = 254; m_put_idx = 1; m_entry = 9 ∷ 0 ∷ 7 ∷ 8 ∷ [] }

ring-IsValid : IsValid 4 64 ring
ring-IsValid = record {
  get_in = omega arith;
  put_in = omega arith;
  whole = refl;
  within = omega arith;
}

contents_test : contents 4 64 ring ≡ 7 ∷ 8 ∷ 9 ∷ []
contents_test = refl

-- Four entries under indices of two bits.
abbrev tight : Cbuf
tight = record { m_get_idx = 2; m_put_idx = 1; m_entry = 9 ∷ 0 ∷ 7 ∷ 8 ∷ [] }

tight-IsValid : IsValid 4 1 tight
tight-IsValid = record {
  get_in = omega arith;
  put_in = omega arith;
  whole = refl;
  within = omega arith;
}

push-one_lap_example :
    (Cbuf.is_full 4 1 tight ≡ false) × (Cbuf.is_empty 4 1 (Cbuf.push 4 1 tight 5) ≡ true)
push-one_lap_example = push-one_lap 4 1 tight 5 tight-IsValid refl (omega arith) (omega arith)

abbrev quiet_log : Log
quiet_log = record {
  queue = record { m_get_idx = 0; m_put_idx = 0; m_entry = replicate 256 0 };
  sem = false;
  buf = [];
  broadcast = [];
}

quiet_log-IsQueue : IsQueue quiet_log
quiet_log-IsQueue = record {
  get_in = omega arith;
  put_in = omega arith;
  whole = refl;
  within = omega arith;
}

dbg_task-delivers_example :
    (output (dbg_task (write quiet_log (b'h' ∷ b'i' ∷ newline ∷ []))) ≡ b'h' ∷ b'i' ∷ 13 ∷ 10 ∷ [])
    × (queued (dbg_task (write quiet_log (b'h' ∷ b'i' ∷ newline ∷ []))) ≡ [])
    × ((dbg_task (write quiet_log (b'h' ∷ b'i' ∷ newline ∷ []))).buf ≡ [])
    × IsQueue (dbg_task (write quiet_log (b'h' ∷ b'i' ∷ newline ∷ [])))
dbg_task-delivers_example =
    dbg_task-delivers quiet_log (b'h' ∷ b'i' ∷ []) quiet_log-IsQueue (omega arith)
