-- ===== src/Fault/Name.antt =====
-- The name of the thread in the record of src/wdt.c: what the handler's loop writes.
use tag_testting.Common.{
  ℕ, zero, suc, ◌+◌, ◌≤◌, ◌<◌, ◌≡◌, refl, sym, ap, ◌∙◌, true, false, Option, none, some, List, [],
  ◌∷◌, ◌++◌, ◌==◌, length, take, set, get_or, arith, drop, get_or-set_ne, get_or-set_self,
  length-set, Bool-cases, inl, inr,
}
use tag_testting.Fault.{FaultRec, string_in, Store, store, name_stores, thread_stores, store_all}

pub store_all-append :
    (f : FaultRec) (xs ys : List Store) → store_all f (xs ++ ys) ≡ store_all (store_all f xs) ys
unfolding store_all
store_all-append f [] ys = refl
store_all-append f (x ∷ xs) ys = store_all-append (store f x) xs ys

-- The stores of the name touch the name alone.
name_only :
    (f : FaultRec) (n i : ℕ) (name : List ℕ)
    → store_all f (name_stores n i name)
      ≡ record f { thread = (store_all f (name_stores n i name)).thread }
unfolding store_all name_stores store
name_only f zero i name = refl
name_only f (suc n) i [] = refl
name_only f (suc n) i (c ∷ name) = elim (Bool-cases (c == 0)) [
  | inl end ↦ rw end refl
  | inr more ↦ rw more (name_only (record f { thread = set f.thread i c }) n (i + 1) name)
]

-- They leave what is before their index,
name_below :
    (f : FaultRec) (n i j : ℕ) (name : List ℕ)
    → j < i
    → get_or (store_all f (name_stores n i name)).thread j 0 ≡ get_or f.thread j 0
unfolding store_all name_stores store
name_below f zero i j name h = get_or-set_ne f.thread 0 0 (λ e. absurd (omega (arith, e)))
name_below f (suc n) i j [] h = get_or-set_ne f.thread 0 0 (λ e. absurd (omega (arith, e)))
name_below f (suc n) i j (c ∷ name) h = elim (Bool-cases (c == 0)) [
  | inl end ↦ rw end (get_or-set_ne f.thread 0 0 (λ e. absurd (omega (arith, e))))
  | inr more ↦ rw more (
      name_below (record f { thread = set f.thread i c }) n (i + 1) j name (omega arith)
      ∙ get_or-set_ne f.thread c 0 (λ e. absurd (omega (arith, e))))
]

name_length :
    (f : FaultRec) (n i : ℕ) (name : List ℕ)
    → length (store_all f (name_stores n i name)).thread ≡ length f.thread
unfolding store_all name_stores store
name_length f zero i name = length-set f.thread i 0
name_length f (suc n) i [] = length-set f.thread i 0
name_length f (suc n) i (c ∷ name) = elim (Bool-cases (c == 0)) [
  | inl end ↦ rw end (length-set f.thread i 0)
  | inr more ↦ rw more (
      name_length (record f { thread = set f.thread i c }) n (i + 1) name ∙ length-set f.thread i c)
]

drop-get : (i : ℕ) (xs : List ℕ) → i < length xs → drop i xs ≡ get_or xs i 0 ∷ drop (suc i) xs
drop-get i [] h = absurd (omega arith)
drop-get zero (x ∷ xs) h = refl
drop-get (suc i) (x ∷ xs) h = drop-get i xs (omega arith)

ends_here : (xs : List ℕ) (i : ℕ) → i < length xs → string_in (drop i (set xs i 0)) ≡ []
unfolding string_in
ends_here [] i h = absurd (omega arith)
ends_here (x ∷ xs) zero h = refl
ends_here (x ∷ xs) (suc i) h = ends_here xs i (omega arith)

string_cons : (c : ℕ) (xs : List ℕ) → (c == 0) ≡ false → string_in (c ∷ xs) ≡ c ∷ string_in xs
unfolding string_in
string_cons c xs h = rw h refl

string_nil : string_in [] ≡ []
unfolding string_in
string_nil = refl

string_end : (c : ℕ) (xs : List ℕ) → (c == 0) ≡ true → string_in (c ∷ xs) ≡ []
unfolding string_in
string_end c xs h = rw h refl

-- and then the name stands from their index on, as far as it fits.
name_written :
    (f : FaultRec) (n i : ℕ) (name : List ℕ)
    → i + n < length f.thread
    → string_in (drop i (store_all f (name_stores n i name)).thread) ≡ take n (string_in name)
unfolding store_all name_stores store
name_written f zero i name h = ends_here f.thread i (omega arith)
name_written f (suc n) i [] h = rw string_nil (ends_here f.thread i (omega arith))
name_written f (suc n) i (c ∷ name) h = elim (Bool-cases (c == 0)) [
  | inl end ↦ rw (end, string_end c name end) (ends_here f.thread i (omega arith))
  | inr more ↦
      let f' = record f { thread = set f.thread i c } in
      let thr = (store_all f' (name_stores n (i + 1) name)).thread in
      let len = name_length f' n (i + 1) name ∙ length-set f.thread i c in
      let here =
        name_below f' n (i + 1) i name (omega arith)
        ∙ get_or-set_self f.thread i c 0 (omega arith) in
      let later = name_written f' n (i + 1) name (omega (arith, h, length-set f.thread i c)) in
      let step : i + 1 ≡ suc i = omega arith in
      rw (more, string_cons c name more)
        (ap string_in (drop-get i thr (omega (arith, len)))
          ∙ rw (here, string_cons c (drop (suc i) thr) more)
              (ap (λ x. c ∷ string_in (drop x thr)) (sym step) ∙ ap (λ x. c ∷ x) later))
]

-- A string of at most `k` characters ends before index `k`, or there.
string-set :
    (k : ℕ) (xs : List ℕ) → length (string_in xs) ≤ k → string_in (set xs k 0) ≡ string_in xs
unfolding string_in
string-set k [] h = refl
string-set zero (x ∷ xs) h = ground arith
string-set (suc k) (x ∷ xs) h = ground (arith, string-set k xs)

length-take : (n : ℕ) (xs : List ℕ) → length (take n xs) ≤ n
length-take zero xs = omega arith
length-take (suc n) [] = omega arith
length-take (suc n) (x ∷ xs) = omega (arith, length-take n xs)

-- The name that a report can hold: its first 15 characters.
abbrev pub short_name : Option (List ℕ) → List ℕ
short_name none = []
short_name (some name) = take 15 (string_in name)

named_some :
    (f : FaultRec) (name : List ℕ)
    → length f.thread ≡ 16
    → string_in (set (store_all f (name_stores 15 0 name)).thread 15 0) ≡ take 15 (string_in name)
named_some f name h =
    let w = name_written f 15 0 name (omega (arith, h)) in
    string-set 15 (store_all f (name_stores 15 0 name)).thread
      (omega (arith, ap length w, length-take 15 (string_in name)))
    ∙ w

pub named :
    (f : FaultRec) (name : Option (List ℕ))
    → length f.thread ≡ 16
    → (string_in (set (store_all f (thread_stores name)).thread 15 0) ≡ short_name name)
      × (store_all f (thread_stores name)
          ≡ record f { thread = (store_all f (thread_stores name)).thread })
unfolding thread_stores name_stores
named f none h = (named_some f [] h ∙ ap (take 15) string_nil, name_only f 15 0 [])
named f (some name) h = (named_some f name h, name_only f 15 0 name)
