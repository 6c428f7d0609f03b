-- ===== src/Gdb/Verbs.antt =====
-- The calls that the `v` packets make are on the target that the variables give, or on the one that
-- they attach to.
use blackmagic_espidf.Base.{
  ℕ, ◌≡◌, refl, Bool, true, false, if◌then◌else◌, none, some, List, [], ◌∷◌, ◌++◌, ◌==◌, drop,
  get_or,
}
use blackmagic_espidf.Base.Text.{codes}
use blackmagic_espidf.Gdb.State.{
  Pointer, Server, Client, target_halt_resume, target_halt_request, target_flash_erase,
  target_flash_write, Effect, call, Probe, Out, put, answer, then_effects,
}
use blackmagic_espidf.Gdb.Run.{kill}
use blackmagic_espidf.Gdb.Cmdline.{run_cmdline}
use blackmagic_espidf.Gdb.Verbose.{
  Verb, v_run, v_cont, v_kill, flash_done, stopped, unknown, v_attach, flash_erase, flash_write,
  verb, on_attach, run_attached, on_run, before_flash, on_flash_erase, on_flash_write, act, actions,
  skip_semicolon, on_cont, on_flash_done, on_stopped, answered_kill, byte_of, on_verb,
  handle_v_packet,
}
use blackmagic_espidf.Gdb.Pointers.{
  At, is_null, AreOn, Attaches, Keeps, server, append-AreOn, if_Keeps, answer-Keeps,
}

-- `vFlashDone` without a target.
unfoldable pub unchecked_verb : Pointer → Verb → Bool
unchecked_verb cur flash_done = is_null cur
unchecked_verb cur v_run = false
unchecked_verb cur v_cont = false
unchecked_verb cur v_kill = false
unchecked_verb cur stopped = false
unchecked_verb cur unknown = false
unchecked_verb cur (v_attach n) = false
unchecked_verb cur (flash_erase addr len) = false
unchecked_verb cur (flash_write addr bin) = false

module _ (R : ℕ → Type 0) (nulls : Bool) where
  if_done :
      (x y : Client × List Effect) (b : Bool)
      → AreOn R nulls x.1
      → AreOn R nulls y.1
      → AreOn R nulls (if b then x else y).1
  if_done x y true h h' = h
  if_done x y false h h' = h'

  act-AreOn : (t a : ℕ) (c : Client) → R t → AreOn R nulls (act t a c).1
  unfolding act
  act-AreOn t a c on =
      if_done (_, call (target_halt_resume c.single_step) (some t) ∷ []) _ (a == b'c') (on, tt)
        (if_done (_, call target_halt_request (some t) ∷ []) _ (a == b't') (on, tt)
          (if_done (_, []) (c, []) (a == b's') tt tt))

  actions-AreOn : (t : ℕ) (text : List ℕ) (c : Client) → R t → AreOn R nulls (actions t text c).1
  unfolding actions
  actions-AreOn t [] c on = tt
  actions-AreOn t (a ∷ rest) c on =
      let (c', done) = act t a c in
      if_done (c, []) ((actions t rest c').0, done ++ (actions t rest c').1) (a == 0) tt
        (append-AreOn R nulls done (actions t rest c').1 (act-AreOn t a c on)
          (actions-AreOn t rest c' on))

module _ (R : ℕ → Type 0) (nulls : Bool) (mode : Bool) (c : Client) (w : Probe)
    (attaches : Attaches R w) where
  abbrev Kept : Pointer → Pointer → (Server → Client → Out) → Type 0
  Kept cur last handler = At R cur → At R last → Keeps R nulls (handler (server cur last mode) c)

  answered-Keeps : (cur last : Pointer) (text : List ℕ) → Kept cur last (λ s c. answer s c text)
  answered-Keeps cur last text on on' = answer-Keeps R nulls last mode c on' cur text on

  on_attach-Keeps : (cur last p : Pointer) → At R p → Kept cur last (λ s c. on_attach s c p)
  unfolding on_attach
  on_attach-Keeps cur last none new on on' = record {
    calls = (tt, tt);
    knows = record { cur = tt; last = on' };
  }
  on_attach-Keeps cur last (some t) new on on' = record {
    calls = (tt, tt);
    knows = record { cur = new; last = on' };
  }

  run_attached-Keeps :
      (text : List ℕ) (cur last p : Pointer)
      → At R p
      → Kept cur last (λ s c. run_attached s c text p)
  unfolding run_attached
  run_attached-Keeps text cur last none new on on' = record {
    calls = (tt, tt);
    knows = record { cur = tt; last = on' };
  }
  run_attached-Keeps text cur last (some t) new on on' = record {
    calls = (new, (new, (tt, tt)));
    knows = record { cur = new; last = on' };
  }

  on_run-Keeps : (text : List ℕ) (cur last : Pointer) → Kept cur last (λ s c. on_run w s c text)
  unfolding on_run
  on_run-Keeps text (some t) last on on' = record {
    calls = (on, (on, (tt, tt)));
    knows = record { cur = on; last = on' };
  }
  on_run-Keeps text none none on on' = answered-Keeps none none _ on on'
  on_run-Keeps text none (some l) on on' =
      run_attached-Keeps text none (some l) (w.attach l) (attaches.again l on') on on'

  reported-Keeps :
      (t : ℕ) (es : List Effect) (b m m' : Bool) (text text' : List ℕ) (last : Pointer)
      → AreOn R nulls es
      → Kept (some t) last (λ s c. then_effects es (
          if b
          then answer (record s { flash_mode = m }) c text
          else answer (record s { flash_mode = m' }) c text'))
  reported-Keeps t es true m m' text text' last h on on' = record {
    calls = append-AreOn R nulls es (put text ∷ []) h (tt, tt);
    knows = record { cur = on; last = on' };
  }
  reported-Keeps t es false m m' text text' last h on on' = record {
    calls = append-AreOn R nulls es (put text' ∷ []) h (tt, tt);
    knows = record { cur = on; last = on' };
  }

  before-AreOn : (t : ℕ) (b : Bool) → R t → AreOn R nulls (before_flash b t)
  before-AreOn t true on = tt
  before-AreOn t false on = (on, (on, tt))

  on_flash_erase-Keeps :
      (addr len : ℕ) (cur last : Pointer) → Kept cur last (λ s c. on_flash_erase w s c addr len)
  unfolding on_flash_erase
  on_flash_erase-Keeps addr len none last on on' = answered-Keeps none last _ on on'
  on_flash_erase-Keeps addr len (some t) last on on' =
      let e : List Effect = call (target_flash_erase addr len) (some t) ∷ [] in
      reported-Keeps t (before_flash mode t ++ e) (w.erased t addr len) true false _ _ last
        (append-AreOn R nulls (before_flash mode t) e (before-AreOn t mode on) (on, tt)) on on'

  on_flash_write-Keeps :
      (addr : ℕ) (bytes : List ℕ) (cur last : Pointer)
      → Kept cur last (λ s c. on_flash_write w s c addr bytes)
  unfolding on_flash_write
  on_flash_write-Keeps addr bytes none last on on' = record {
    calls = (tt, tt);
    knows = record { cur = tt; last = on' };
  }
  on_flash_write-Keeps addr bytes (some t) last on on' =
      reported-Keeps t (call (target_flash_write addr bytes) (some t) ∷ []) (w.flashed t addr bytes)
        mode false (codes "OK") (codes "EFF") last (on, tt) on on'

  on_cont-Keeps : (text : List ℕ) (cur last : Pointer) → Kept cur last (λ s c. on_cont s c text)
  unfolding on_cont
  on_cont-Keeps text none last on on' =
      if_Keeps R nulls _ (answered-Keeps none last (codes "vCont;c;s;t") on on')
        (answered-Keeps none last (codes "EFF") on on')
  on_cont-Keeps text (some t) last on on' =
      let (c', es) = actions t text (record c { single_step = false }) in
      if_Keeps R nulls (get_or text 0 0 == b'?')
        (answered-Keeps (some t) last (codes "vCont;c;s;t") on on')
        (record {
          calls =
              append-AreOn R nulls es (put (codes "OK") ∷ []) (actions-AreOn R nulls t text _ on)
                (tt, tt);
          knows = record { cur = on; last = on' };
        })

  on_flash_done-Keeps :
      (cur last : Pointer) → (is_null cur ≡ true → nulls ≡ true) → Kept cur last (on_flash_done w)
  unfolding on_flash_done
  on_flash_done-Keeps none last h on on' = record {
    calls = (h refl, (tt, tt));
    knows = record { cur = tt; last = on' };
  }
  on_flash_done-Keeps (some t) last h on on' = record {
    calls = (on, (tt, tt));
    knows = record { cur = on; last = on' };
  }

  on_stopped-Keeps : (cur last : Pointer) → Kept cur last on_stopped
  unfolding on_stopped
  on_stopped-Keeps cur last on on' =
      if_Keeps R nulls c.gdb_needs_detach_notify
        (record { calls = (tt, tt); knows = record { cur = on; last = on' } })
        (answered-Keeps cur last (codes "OK") on on')

  answered_kill-Keeps : (cur last : Pointer) → Kept cur last (λ s c. answered_kill (kill s c))
  unfolding kill
  answered_kill-Keeps none last on on' = answered-Keeps none last _ on on'
  answered_kill-Keeps (some t) last on on' = record {
    calls = (on, (on, (tt, tt)));
    knows = record { cur = tt; last = on };
  }

  on_verb-Keeps :
      (packet : List ℕ) (cur last : Pointer) (v : Verb)
      → (unchecked_verb cur v ≡ true → nulls ≡ true)
      → Kept cur last (λ s c. on_verb w s c packet v)
  unfolding on_verb unchecked_verb
  on_verb-Keeps packet cur last (v_attach n) h on on' =
      on_attach-Keeps cur last (w.attach_n n) (attaches.new n) on on'
  on_verb-Keeps packet cur last v_run h on on' =
      on_run-Keeps (run_cmdline (byte_of w) (drop 4 packet)) cur last on on'
  on_verb-Keeps packet cur last (flash_erase addr len) h on on' =
      on_flash_erase-Keeps addr len cur last on on'
  on_verb-Keeps packet cur last (flash_write addr bin) h on on' =
      on_flash_write-Keeps addr (drop bin packet) cur last on on'
  on_verb-Keeps packet cur last v_cont h on on' =
      on_cont-Keeps (skip_semicolon (drop 5 packet)) cur last on on'
  on_verb-Keeps packet cur last v_kill h on on' = answered_kill-Keeps cur last on on'
  on_verb-Keeps packet cur last flash_done h on on' = on_flash_done-Keeps cur last h on on'
  on_verb-Keeps packet cur last stopped h on on' = on_stopped-Keeps cur last on on'
  on_verb-Keeps packet cur last unknown h on on' = answered-Keeps cur last [] on on'

  pub handle_v_packet-Keeps :
      (packet : List ℕ) (cur last : Pointer)
      → (unchecked_verb cur (verb w packet) ≡ true → nulls ≡ true)
      → Kept cur last (λ s c. handle_v_packet w s c packet)
  unfolding handle_v_packet
  handle_v_packet-Keeps packet cur last h on on' =
      on_verb-Keeps packet cur last (verb w packet) h on on'
