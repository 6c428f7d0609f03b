-- ===== src/Channel/Owned.antt =====
-- Sockets and objects of the clients of main/gdb_if.cpp: none is shared, and none is used behind its end.
use blackmagic_espidf.Base.{
  ℕ, zero, suc, ◌≡◌, ◌≢◌, refl, sym, ap, subst, ◌∙◌, Bool, true, false, List, [], ◌∷◌, map, get_or,
}
use blackmagic_espidf.Base.Int.{ℤ}
use blackmagic_espidf.Channel.Clients.{
  missing, created, running, ending, gone, Conn, client, Net, Move, task, destroy, task_deleted,
  deleted_ending, deleted_gone, Change, here, there, is_open, sock_of, IsFresh, accepted, moved,
  Reach, start, later,
}
use blackmagic_espidf.Channel.Counted.{is_running, at}

-- The sockets that are open differ from one another.
abbrev Distinct : List Conn → Type 0
Distinct [] = Unit
Distinct (c ∷ cs) = (is_open c ≡ true → IsFresh (sock_of c) cs) × Distinct cs

-- The object of a client is there while its task can use it.
abbrev IsKept : Conn → Type 0
IsKept (client sock missing a) = a ≡ true
IsKept (client sock created a) = a ≡ true
IsKept (client sock running a) = a ≡ true
IsKept (client sock ending a) = Unit
IsKept (client sock gone a) = Unit

abbrev AreKept : List Conn → Type 0
AreKept [] = Unit
AreKept (c ∷ cs) = IsKept c × AreKept cs

Move-open :
    {c c' : Conn} {f : ℤ → ℤ}
    → Move c f c'
    → (is_open c' ≡ true → is_open c ≡ true) × (sock_of c' ≡ sock_of c) × (IsKept c → IsKept c')
Move-open task = (λ h. refl, refl, λ h. h)
Move-open destroy = (λ h. refl, refl, λ h. tt)
Move-open task_deleted = (λ h. h, refl, λ h. tt)
Move-open deleted_ending = (λ h. h, refl, λ h. tt)
Move-open deleted_gone = (λ h. h, refl, λ h. tt)

Change-IsFresh :
    {cs cs' : List Conn} {c c' : Conn} {f : ℤ → ℤ} (k : ℕ)
    → Change cs c c' cs'
    → Move c f c'
    → IsFresh k cs
    → IsFresh k cs'
Change-IsFresh k here mv (h, hs) =
    let (opened, same, _) = Move-open mv in (λ o e. h (opened o) (sym same ∙ e), hs)
Change-IsFresh k (there ch) mv (h, hs) = (h, Change-IsFresh k ch mv hs)

Change-Distinct :
    {cs cs' : List Conn} {c c' : Conn} {f : ℤ → ℤ}
    → Change cs c c' cs'
    → Move c f c'
    → Distinct cs × AreKept cs
    → Distinct cs' × AreKept cs'
Change-Distinct (here {cs = cs}) mv ((d, ds), (k, ks)) =
    let (opened, same, kept) = Move-open mv in
    ((λ o. subst (λ sock. IsFresh sock cs) (sym same) (d (opened o)), ds), (kept k, ks))
Change-Distinct (there ch) mv ((d, ds), (k, ks)) =
    let (ds', ks') = Change-Distinct ch mv (ds, ks) in
    ((λ o. Change-IsFresh _ ch mv (d o), ds'), (k, ks'))

Reach-Distinct : {s : Net} → Reach s → Distinct s.clients × AreKept s.clients
Reach-Distinct start = (tt, tt)
Reach-Distinct (later r (accepted sock true fresh h)) =
    let (ds, ks) = Reach-Distinct r in ((λ o. fresh, ds), (refl, ks))
Reach-Distinct (later r (accepted sock false fresh h)) =
    let (ds, ks) = Reach-Distinct r in ((λ o. fresh, ds), (refl, ks))
Reach-Distinct (later r (moved ch mv)) = Change-Distinct ch mv (Reach-Distinct r)

abbrev pub sock_at : List Conn → ℕ → ℕ
sock_at cs i = get_or (map sock_of cs) i 0

IsFresh-at :
    (k : ℕ) (cs : List Conn) (i : ℕ) → IsFresh k cs → at is_open cs i ≡ true → sock_at cs i ≢ k
IsFresh-at k [] i h o = cc
IsFresh-at k (c ∷ cs) zero h o = h.0 o
IsFresh-at k (c ∷ cs) (suc i) h o = IsFresh-at k cs i h.1 o

Distinct-at :
    (cs : List Conn) (i j : ℕ)
    → Distinct cs
    → at is_open cs i ≡ true
    → at is_open cs j ≡ true
    → sock_at cs i ≡ sock_at cs j
    → i ≡ j
Distinct-at [] i j d o o' e = cc
Distinct-at (c ∷ cs) zero zero d o o' e = refl
Distinct-at (c ∷ cs) zero (suc j) d o o' e = absurd (IsFresh-at (sock_of c) cs j (d.0 o) o' (sym e))
Distinct-at (c ∷ cs) (suc i) zero d o o' e = absurd (IsFresh-at (sock_of c) cs i (d.0 o') o e)
Distinct-at (c ∷ cs) (suc i) (suc j) d o o' e = ap suc (Distinct-at cs i j d.1 o o' e)

-- In any reachable state two clients whose sockets are open do not share one.
pub Reach-sockets :
    {s : Net}
    → Reach s
    → (i j : ℕ) → at is_open s.clients i ≡ true
    → at is_open s.clients j ≡ true
    → sock_at s.clients i ≡ sock_at s.clients j
    → i ≡ j
Reach-sockets {s} r i j o o' e = Distinct-at s.clients i j (Reach-Distinct r).0 o o' e

abbrev pub is_allocated : Conn → Bool
is_allocated (client sock t a) = a

AreKept-at :
    (cs : List Conn) (i : ℕ) → AreKept cs → at is_running cs i ≡ true → at is_allocated cs i ≡ true
AreKept-at [] i h e = e
AreKept-at (client sock missing a ∷ cs) zero h e = h.0
AreKept-at (client sock created a ∷ cs) zero h e = h.0
AreKept-at (client sock running a ∷ cs) zero h e = h.0
AreKept-at (client sock ending a ∷ cs) zero h e = cc
AreKept-at (client sock gone a ∷ cs) zero h e = cc
AreKept-at (c ∷ cs) (suc i) h e = AreKept-at cs i h.1 e

-- The object of a client is not deleted while the client's task serves.
pub running-is_allocated :
    {s : Net}
    → Reach s
    → (i : ℕ) → at is_running s.clients i ≡ true
    → at is_allocated s.clients i ≡ true
running-is_allocated {s} r i e = AreKept-at s.clients i (Reach-Distinct r).1 e
