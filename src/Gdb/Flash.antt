-- ===== src/Gdb/Flash.antt =====
-- A programming session: the packets `vFlashErase`, `vFlashWrite` and `vFlashDone` of
-- `GDB::handle_v_packet`, main/gdb_main.cpp.
use blackmagic_espidf.Base.{
  ℕ, ◌≡◌, refl, ap, ◌∙◌, Bool, true, false, some, List, [], ◌∷◌, ◌++◌, map, drop, length, arith,
}
use blackmagic_espidf.Base.Text.{codes}
use blackmagic_espidf.Gdb.State.{
  Pointer, Server, Client, Effect, call, target_flash_erase, target_flash_write,
  target_flash_complete, Probe, Out, put, then_effects,
}
use blackmagic_espidf.Gdb.Verbose.{
  verb, handle_v_packet, before_flash, flash_done, flash_erase, flash_write, on_verb,
  on_flash_erase, on_flash_write, on_flash_done,
}

-- Packets one after another.
unfoldable pub session : Probe → Server → Client → List (List ℕ) → Out
unfolding handle_v_packet
session w s c [] = record { server = s; client = c; effects = [] }
session w s c (packet ∷ rest) =
    let o = handle_v_packet w s c packet in
    then_effects o.effects (session w o.server o.client rest)

abbrev pub on_target : ℕ → Pointer → Bool → Server
on_target t last mode = record { cur_target = some t; last_target = last; flash_mode = mode }

-- An erasure has its packet, a write its packet up to the bytes.
abbrev pub erase : List ℕ × (ℕ × ℕ) → List ℕ
erase (packet, (addr, len)) = packet

abbrev pub write : List ℕ × (ℕ × List ℕ) → List ℕ
write (header, (addr, bytes)) = header ++ bytes

-- What they do on a target that is in flash mode.
unfoldable pub erases : ℕ → List (List ℕ × (ℕ × ℕ)) → List Effect
erases t [] = []
erases t ((packet, (addr, len)) ∷ rest) =
    call (target_flash_erase addr len) (some t) ∷ put (codes "OK") ∷ erases t rest

unfoldable pub writes : ℕ → List (List ℕ × (ℕ × List ℕ)) → List Effect
writes t [] = []
writes t ((header, (addr, bytes)) ∷ rest) =
    call (target_flash_write addr bytes) (some t) ∷ put (codes "OK") ∷ writes t rest

-- The packets are read as these erasures and writes, and the probe firmware does not fail on them.
abbrev pub AreErased : Probe → ℕ → List (List ℕ × (ℕ × ℕ)) → Type 0
AreErased w t [] = Unit
AreErased w t ((packet, (addr, len)) ∷ rest) =
    (verb w packet ≡ flash_erase addr len) × (w.erased t addr len ≡ true) × AreErased w t rest

abbrev pub AreWritten : Probe → ℕ → List (List ℕ × (ℕ × List ℕ)) → Type 0
AreWritten w t [] = Unit
AreWritten w t ((header, (addr, bytes)) ∷ rest) =
    (verb w (header ++ bytes) ≡ flash_write addr (length header))
    × (w.flashed t addr bytes ≡ true)
    × AreWritten w t rest

drop-length : (xs ys : List ℕ) → drop (length xs) (xs ++ ys) ≡ ys
drop-length [] ys = refl
drop-length (x ∷ xs) ys = drop-length xs ys

module _ (w : Probe) (t : ℕ) (last : Pointer) (c : Client) where
  abbrev pub ended : Bool → List Effect → Out
  ended mode es = record { server = on_target t last mode; client = c; effects = es }

  packet-erase :
      (mode : Bool) (packet : List ℕ) (addr len : ℕ)
      → verb w packet ≡ flash_erase addr len
      → w.erased t addr len ≡ true
      → handle_v_packet w (on_target t last mode) c packet
        ≡ ended true (
            (before_flash mode t ++ call (target_flash_erase addr len) (some t) ∷ [])
            ++ put (codes "OK") ∷ [])
  unfolding handle_v_packet on_verb on_flash_erase
  packet-erase mode packet addr len v e =
      ap (on_verb w (on_target t last mode) c packet) v ∙ ground arith

  packet-write :
      (header : List ℕ) (addr : ℕ) (bytes : List ℕ)
      → verb w (header ++ bytes) ≡ flash_write addr (length header)
      → w.flashed t addr bytes ≡ true
      → handle_v_packet w (on_target t last true) c (header ++ bytes)
        ≡ ended true (call (target_flash_write addr bytes) (some t) ∷ put (codes "OK") ∷ [])
  unfolding handle_v_packet on_verb on_flash_write
  packet-write header addr bytes v e =
      ap (on_verb w (on_target t last true) c (header ++ bytes)) v
      ∙ ap (on_flash_write w (on_target t last true) c addr) (drop-length header bytes)
      ∙ ground arith

  abbrev continued : List (List ℕ) → Out → Out
  continued rest o = then_effects o.effects (session w o.server o.client rest)

  erases-session :
      (es : List (List ℕ × (ℕ × ℕ))) (rest : List (List ℕ))
      → AreErased w t es
      → session w (on_target t last true) c (map erase es ++ rest)
        ≡ then_effects (erases t es) (session w (on_target t last true) c rest)
  unfolding session erases
  erases-session [] rest h = refl
  erases-session ((packet, (addr, len)) ∷ es) rest h =
      ap (continued (map erase es ++ rest)) (packet-erase true packet addr len h.0 h.1)
      ∙ ap (then_effects (call (target_flash_erase addr len) (some t) ∷ put (codes "OK") ∷ []))
          (erases-session es rest h.2)

  writes-session :
      (ps : List (List ℕ × (ℕ × List ℕ))) (rest : List (List ℕ))
      → AreWritten w t ps
      → session w (on_target t last true) c (map write ps ++ rest)
        ≡ then_effects (writes t ps) (session w (on_target t last true) c rest)
  unfolding session writes
  writes-session [] rest h = refl
  writes-session ((header, (addr, bytes)) ∷ ps) rest h =
      ap (continued (map write ps ++ rest)) (packet-write header addr bytes h.0 h.1)
      ∙ ap (then_effects (call (target_flash_write addr bytes) (some t) ∷ put (codes "OK") ∷ []))
          (writes-session ps rest h.2)

  abbrev pub finished : List Effect
  finished = call target_flash_complete (some t) ∷ put (codes "OK") ∷ []

  session-done :
      (packet : List ℕ)
      → verb w packet ≡ flash_done
      → w.completed (some t) ≡ true
      → session w (on_target t last true) c (packet ∷ []) ≡ ended false finished
  unfolding session handle_v_packet on_verb on_flash_done
  session-done packet v e =
      ap (λ x. continued [] (on_verb w (on_target t last true) c packet x)) v ∙ ground arith

  -- A session of packets that are read as erasures, writes and `vFlashDone`, none of which fails,
  -- resets and halts the target once, in front of the first erasure; it hands over the same
  -- erasures and, of each write, the bytes behind its address, in this order, and leaves the flash
  -- mode, so that the next session starts in the same way.
  pub session-programs :
      (packet : List ℕ) (addr len : ℕ) (es : List (List ℕ × (ℕ × ℕ)))
      → (ps : List (List ℕ × (ℕ × List ℕ))) (end : List ℕ)
      → AreErased w t ((packet, (addr, len)) ∷ es)
      → AreWritten w t ps
      → verb w end ≡ flash_done
      → w.completed (some t) ≡ true
      → session w (on_target t last false) c (packet ∷ map erase es ++ (map write ps ++ end ∷ []))
        ≡ ended false (
            before_flash false t
            ++ (erases t ((packet, (addr, len)) ∷ es) ++ (writes t ps ++ finished)))
  unfolding session erases
  session-programs packet addr len es ps end h h' v e =
      ap (continued (map erase es ++ (map write ps ++ end ∷ [])))
        (packet-erase false packet addr len h.0 h.1)
      ∙ ap
          (then_effects (
            before_flash false t
            ++ call (target_flash_erase addr len) (some t) ∷ put (codes "OK") ∷ []))
          (erases-session es (map write ps ++ end ∷ []) h.2
            ∙ ap (then_effects (erases t es)) (
                writes-session ps (end ∷ []) h'
                ∙ ap (then_effects (writes t ps)) (session-done end v e)))
