-- ===== src/Gdb/Query.antt =====
-- `GDB::handle_q_packet` of main/gdb_main.cpp.
use blackmagic_espidf.Base.{
  ℕ, ◌-◌, ◌*◌, ◌/◌, Bool, true, false, ◌||◌, Option, none, some, List, [], ◌∷◌, ◌++◌, length, map,
  take, drop, ◌==◌, if◌then◌else◌,
}
use blackmagic_espidf.Base.Int.{ℤ, pos, negsuc}
use blackmagic_espidf.Base.Text.{codes, str_eq}
use blackmagic_espidf.Gdb.Xfer.{handle_q_string_reply}
use blackmagic_espidf.Gdb.State.{
  Server, Client, target_reset, target_mem_map, target_regs_description, generic_crc32, Effect,
  call, command_process, Probe, Out, put, answer,
}
use blackmagic_espidf.Gdb.Registers.{reply_after}

-- `!strncmp(packet, text, strlen(text))`, for a text without a zero.
unfoldable pub starts_with : List ℕ → List ℕ → Bool
starts_with [] packet = true
starts_with (c ∷ cs) [] = false
starts_with (c ∷ cs) (d ∷ ds) = let rest = starts_with cs ds in if c == d then rest else false

-- The queries, with what `sscanf` has read.
pub data Query : Type 0 where
  rcmd supported is_attached memory_map features current thread_first thread_next unknown : Query
  crc : (addr alen : ℕ) → Query

abbrev pub features_text : List ℕ
features_text = codes "qXfer:features:read:target.xml:"

unfoldable pub query : Probe → List ℕ → Query
query w packet =
    if starts_with (codes "qRcmd,") packet
    then rcmd
    else if starts_with (codes "qSupported") packet
    then supported
    else if starts_with (codes "qAttached") packet
    then is_attached
    else if starts_with (codes "qXfer:memory-map:read::") packet
    then memory_map
    else if starts_with features_text packet
    then features
    else elim (w.scan_crc packet) [
      | some (addr, alen) ↦ crc addr alen
      | none ↦
          if str_eq packet (codes "qC")
          then current
          else if str_eq packet (codes "qfThreadInfo")
          then thread_first
          else if str_eq packet (codes "qsThreadInfo")
          then thread_next
          else unknown
    ]

-- The reply to the return value of `command_process`; 255 stands for a command that has replied
-- itself, as `ReadAP` and `WriteDP` have.
abbrev pub command_reply : ℤ → List Effect
command_reply (negsuc n) = put [] ∷ []
command_reply (pos n) =
    if n == 0 then put (codes "OK") ∷ [] else if n == 255 then [] else put (b'E' ∷ []) ∷ []

abbrev pub run_command : Probe → Server → Client → List ℕ → Out
run_command w s c text =
    let (value, text') = w.command s.cur_target text in
    record {
      server = s;
      client = c;
      effects =
          command_process s.cur_target text
          ∷ (map put (w.command_sent s.cur_target text)
              ++ (if str_eq text' (codes "ReadAP") || str_eq text' (codes "WriteDP")
                  then []
                  else command_reply value));
    }

unfoldable pub monitor_reset : Server → Client → Out
monitor_reset s c = elim s.cur_target [
  | none ↦ answer s c (b'E' ∷ [])
  | some t ↦ reply_after s c (call target_reset (some t) ∷ []) (codes "OK")
]

-- The text behind `qRcmd,`, which two digits of the packet stand for a character of.
abbrev pub command_text : Probe → List ℕ → List ℕ
command_text w packet = w.unhexify (take ((length packet - 6) / 2 * 2) (drop 6 packet))

unfoldable pub monitor : Probe → Server → Client → List ℕ → Out
monitor w s c packet =
    let text : List ℕ = command_text w packet in
    if starts_with (codes "reset") text then monitor_reset s c else run_command w s c text

-- The attachment to the last target, where there is none.
abbrev pub reattached : Probe → Server → Server
reattached w s = elim s.cur_target [
  | some t ↦ s
  | none ↦ elim s.last_target [ none ↦ s | some l ↦ record s { cur_target = w.attach l } ]
]

-- The memory map with the region that is put in front of its end.
abbrev pub region_text : List ℕ
region_text = codes "<memory type=\"ram\" start=\"0x30000000\" length=\"0xCFFFFFFF\"/></memory-map>"

abbrev pub with_region : List ℕ → List ℕ
with_region map_text = take (length map_text - 13) map_text ++ region_text

-- The text of a target, or the error where none is attached.
unfoldable pub hand_out : Probe → Server → Client → (ℕ → Effect × List ℕ) → List ℕ → Out
hand_out w s c text param = elim s.cur_target [
  | none ↦ answer s c (codes "E01")
  | some t ↦
      let (made, str) = text t in
      reply_after s c (made ∷ []) (handle_q_string_reply w.scan_part str param)
]

abbrev pub or_empty : Option (List ℕ) → List ℕ
or_empty none = []
or_empty (some text) = text

-- `%X` and `%lx` have no leading zero; `digits` gives them.
unfoldable pub on_query : (digits : ℕ → List ℕ) → Probe → Server → Client → List ℕ → Query → Out
unfolding monitor hand_out
on_query digits w s c packet rcmd = monitor w s c packet
on_query digits w s c packet supported =
    answer s c (
      codes "PacketSize=400;qXfer:memory-map:read+;qXfer:features:read+;QNonStop+;QStartNoAckMode+")
on_query digits w s c packet is_attached =
    answer s c (elim s.cur_target [ none ↦ b'0' ∷ [] | some t ↦ b'1' ∷ [] ])
on_query digits w s c packet memory_map =
    hand_out w (reattached w s) c (λ t. (call target_mem_map (some t), with_region (w.mem_map t)))
      (drop 23 packet)
on_query digits w s c packet features =
    hand_out w (reattached w s) c
      (λ t. (call target_regs_description (some t), or_empty (w.description t))) (drop 31 packet)
on_query digits w s c packet (crc addr alen) = elim s.cur_target [
  | none ↦ answer s c (codes "E01")
  | some t ↦
      reply_after s c (call (generic_crc32 addr alen) (some t) ∷ [])
        (elim (w.crc t addr alen) [ none ↦ codes "E03" | some value ↦ b'C' ∷ digits value ])
]
on_query digits w s c packet current = answer s c (codes "QC1")
on_query digits w s c packet thread_first = answer s c (codes "m1")
on_query digits w s c packet thread_next = answer s c (b'l' ∷ [])
on_query digits w s c packet unknown = answer s c []

unfoldable pub handle_q_packet : (digits : ℕ → List ℕ) → Probe → Server → Client → List ℕ → Out
unfolding on_query query
handle_q_packet digits w s c packet = on_query digits w s c packet (query w packet)
