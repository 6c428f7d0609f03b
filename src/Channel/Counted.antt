-- ===== src/Channel/Counted.antt =====
-- What holds of the clients of main/gdb_if.cpp in every state that their tasks can reach.
use blackmagic_espidf.Base.{
  ℕ, zero, suc, ◌<◌, ◌≡◌, refl, sym, ap, ◌∙◌, Bool, true, false, not, ◌&&◌, ◌||◌, Option, List, [],
  ◌∷◌, ◌==◌, if◌then◌else◌, arith,
}
use blackmagic_espidf.Base.Int.{ℤ, pos}
use blackmagic_espidf.Gdb.State.{Server, Probe}
use blackmagic_espidf.Gdb.Run.{not_set, scanned, begin}
use blackmagic_espidf.Channel.Clients.{
  missing, created, running, ending, gone, Conn, client, Net, Move, task, destroy, task_deleted,
  deleted_ending, deleted_gone, Change, here, there, accepted, moved, Reach, start, later,
}

abbrev pub is_running : Conn → Bool
is_running (client sock missing a) = false
is_running (client sock created a) = false
is_running (client sock running a) = true
is_running (client sock ending a) = false
is_running (client sock gone a) = false

abbrev one_more : Bool → ℕ → ℕ
one_more b n = if b then suc n else n

-- How many run.
unfoldable pub count : List Conn → ℕ
count [] = 0
count (c ∷ cs) = one_more (is_running c) (count cs)

-- Of the client at an index; false where there is none.
abbrev pub at : (Conn → Bool) → List Conn → ℕ → Bool
at p [] i = false
at p (c ∷ cs) zero = p c
at p (c ∷ cs) (suc i) = at p cs i

-- A move changes the counter by what it changes the number of those that run.
Move-counts :
    {c c' : Conn} {f : ℤ → ℤ} (n : ℕ)
    → Move c f c'
    → f (pos (one_more (is_running c) n)) ≡ pos (one_more (is_running c') n)
Move-counts n task = refl
Move-counts n destroy = refl
Move-counts n task_deleted = refl
Move-counts n deleted_ending = refl
Move-counts n deleted_gone = refl

Change-counts :
    {cs cs' : List Conn} {c c' : Conn}
    → Change cs c c' cs'
    → (n : ℕ) × (count cs ≡ one_more (is_running c) n) × (count cs' ≡ one_more (is_running c') n)
unfolding count
Change-counts (here {c} {c'} {cs}) = (count cs, refl, refl)
Change-counts {c = c} {c' = c'} (there {d = d} ch) =
    let (n, e, e') = Change-counts ch in (one_more (is_running d) n, twice d c n e, twice d c' n e')
  where
    twice :
        (d c : Conn) (n : ℕ) {m : ℕ}
        → m ≡ one_more (is_running c) n
        → one_more (is_running d) m ≡ one_more (is_running c) (one_more (is_running d) n)
    twice d c n e = ground arith

-- `num_clients` is the number of clients whose task has started and is not destroyed: it is never
-- negative, whatever the order in which connections come, tasks start and end.
pub Reach-counts : {s : Net} → Reach s → s.num_clients ≡ pos (count s.clients)
unfolding count
Reach-counts start = refl
Reach-counts (later r (accepted sock true fresh h)) = Reach-counts r
Reach-counts (later r (accepted sock false fresh h)) = Reach-counts r
Reach-counts (later r (moved {count = f} ch mv)) =
    let (n, e, e') = Change-counts ch in
    ap f (Reach-counts r ∙ ap pos e) ∙ Move-counts n mv ∙ sym (ap pos e')

-- No client runs; none but the one at an index.
unfoldable pub none_runs : List Conn → Bool
none_runs [] = true
none_runs (c ∷ cs) = not (is_running c) && none_runs cs

unfoldable pub is_alone : List Conn → ℕ → Bool
unfolding none_runs
is_alone [] i = true
is_alone (c ∷ cs) zero = none_runs cs
is_alone (c ∷ cs) (suc i) = not (is_running c) && is_alone cs i

count-none_runs : (cs : List Conn) → (count cs == 0) ≡ none_runs cs
unfolding count none_runs
count-none_runs [] = refl
count-none_runs (c ∷ cs) = ground (arith, count-none_runs cs)

count-running : (cs : List Conn) (i : ℕ) → at is_running cs i ≡ true → 0 < count cs
unfolding count
count-running [] i h = cc
count-running (c ∷ cs) zero h = ground arith
count-running (c ∷ cs) (suc i) h = ground (arith, count-running cs i h)

count-is_alone :
    (cs : List Conn) (i : ℕ) → at is_running cs i ≡ true → (count cs == 1) ≡ is_alone cs i
unfolding count is_alone
count-is_alone [] i h = cc
count-is_alone (c ∷ cs) zero h = ground (arith, count-none_runs cs)
count-is_alone (c ∷ cs) (suc i) h = ground (arith, count-is_alone cs i h, count-running cs i h)

-- What a client finds whose task runs and begins to serve, whatever connections came and went
-- before: it scans for targets if none is known, or if no other client's task runs, and not
-- otherwise.
pub begin-is_alone :
    {s : Net}
    → Reach s
    → (i n : ℕ) (w : Probe) (devs : Option ℕ) (server : Server) → at is_running s.clients i ≡ true
    → s.num_clients ≡ pos n
    → begin w devs n server ≡ (
        if (not_set server.cur_target && not_set server.last_target) || is_alone s.clients i
        then scanned w devs server
        else server)
unfolding begin
begin-is_alone {s} r i n w devs server h e =
    let same : n ≡ count s.clients = ground (arith, Reach-counts r) in
    rw (same, count-is_alone s.clients i h) refl
