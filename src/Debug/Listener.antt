-- ===== src/Debug/Listener.antt =====
-- The listener stays right about the session whose lines it hears, whatever is lost of them.
use tag_testting.Common.{
  ℕ, ◌≤◌, ◌≡◌, Bool, true, false, Option, none, some, List, [], ◌∷◌, ◌++◌, ◌==◌, if◌then◌else◌, All,
  Bool-cases, arith, inl, inr,
}
use tag_testting.Debug.Decode.{Reading, Slot, Record, sweep, slots, mark, decode}
use tag_testting.Debug.Session.{Session, Line, say, raw, Sweep}
use tag_testting.Debug.Host.{Pair, Host, Heard, attribute, hear_record, hear, listen, selected}
use tag_testting.Debug.Lines.{kept_slot, Keeps, Tells, Says, SaysLine}

-- What the listener holds of a base: an epoch that is not ahead, and if it is the session's the
-- session's slots.
abbrev pub Fits : ℕ → Slot → Slot → Option Pair → Type 0
Fits epoch a b none = Unit
Fits epoch a b (some p) =
    (p.epoch ≤ epoch) × (if p.epoch == epoch then (p.first ≡ a) × (p.second ≡ b) else Unit)

pub record HostFits (s : Session) (h : Host) : Type 0 where
  pub low_fits : Fits s.epoch (kept_slot s 0) (kept_slot s 1) h.low
  pub high_fits : Fits s.epoch (kept_slot s 2) (kept_slot s 3) h.high

-- A reading is right about its sweep, and about the anchors if it has any.
abbrev pub IsRight : Sweep → Heard → Type 0
IsRight w (r, none) = Tells w r
IsRight w (r, some known) = Tells w r × (known ≡ selected w)

attribute-IsRight :
    (s : Session) (w : Sweep) (l h : Option Pair) (r : Reading)
    → Keeps s w
    → Fits s.epoch (kept_slot s 0) (kept_slot s 1) l
    → Fits s.epoch (kept_slot s 2) (kept_slot s 3) h
    → r.epoch ≡ s.epoch
    → Tells w r
    → IsRight w (r, attribute r.epoch l h)
unfolding attribute
attribute-IsRight s w none h r k f g e t = t
attribute-IsRight s w (some l) none r k f g e t = t
attribute-IsRight s w (some l) (some h) r (ka, kx, ky) f g e t =
    elim (Bool-cases (l.epoch == r.epoch)) [
      | inr other ↦ rw other t
      | inl low ↦ elim (Bool-cases (h.epoch == r.epoch)) [
        | inr other ↦ rw (low, other) t
        | inl high ↦
            let first = rw (← e, low) at f.1 in
            let second = rw (← e, high) at g.1 in
            rw (low, high) (t, ground (arith, ka, kx, ky, first, second))
      ]
    ]

hear_record-IsRight :
    (s : Session) (w : Sweep) (h : Host) (o : Option Record)
    → Keeps s w
    → HostFits s h
    → Says s w o
    → HostFits s (hear_record h o).0 × All (IsRight w) (hear_record h o).1
unfolding hear_record
hear_record-IsRight s w h none k f said = (f, tt)
hear_record-IsRight s w h (some (slots e base a b)) k f said = elim (Bool-cases (base == 0)) [
  | inl low ↦
      let fact = rw low at said.1 in
      rw low (record { low_fits = ground (arith, fact); high_fits = f.high_fits }, tt)
  | inr high ↦
      let fact = rw high at said.1 in
      rw high (record { low_fits = f.low_fits; high_fits = ground (arith, fact) }, tt)
]
hear_record-IsRight s w h (some (sweep r)) k f said =
    (f, (attribute-IsRight s w h.low h.high r k f.low_fits f.high_fits said.0 said.1, tt))
hear_record-IsRight s w h (some (mark q i)) k f said = (f, tt)

All-join :
    (w : Sweep) (xs ys : List Heard)
    → All (IsRight w) xs
    → All (IsRight w) ys
    → All (IsRight w) (xs ++ ys)
All-join w [] ys h k = k
All-join w (x ∷ xs) ys h k = (h.0, All-join w xs ys h.1 k)

hear-IsRight :
    (s : Session) (w : Sweep) (h : Host) (l : Line)
    → Keeps s w
    → HostFits s h
    → SaysLine s w l
    → HostFits s (hear h l).0 × All (IsRight w) (hear h l).1
unfolding hear
hear-IsRight s w h (say t) k f said = (f, tt)
hear-IsRight s w h (raw b) k f said = hear_record-IsRight s w h (decode b) k f said

-- Whatever is lost of a sweep's lines, the listener stays right.
pub listen-IsRight :
    (s : Session) (w : Sweep) (h : Host) (arrives : List Bool) (ls : List Line)
    → Keeps s w
    → HostFits s h
    → All (SaysLine s w) ls
    → HostFits s (listen h arrives ls).0 × All (IsRight w) (listen h arrives ls).1
unfolding listen
listen-IsRight s w h arrives [] k f said = (f, tt)
listen-IsRight s w h [] (l ∷ ls) k f said =
    let now = hear-IsRight s w h l k f said.0 in
    let later = listen-IsRight s w (hear h l).0 [] ls k now.0 said.1 in
    (later.0, All-join w (hear h l).1 _ now.1 later.1)
listen-IsRight s w h (true ∷ arrives) (l ∷ ls) k f said =
    let now = hear-IsRight s w h l k f said.0 in
    let later = listen-IsRight s w (hear h l).0 arrives ls k now.0 said.1 in
    (later.0, All-join w (hear h l).1 _ now.1 later.1)
listen-IsRight s w h (false ∷ arrives) (l ∷ ls) k f said =
    listen-IsRight s w h arrives ls k f said.1
