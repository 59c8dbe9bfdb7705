-- ===== src/Fault.antt =====
-- src/wdt.c: the reset reason, and the record of a fatal error in RAM that a reset leaves alone.
pub mod Name
pub mod Retained
mod Tests
use tag_testting.Common.{
  ℕ, zero, suc, ◌+◌, Bool, true, false, not, Option, none, some, List, [], ◌∷◌, ◌++◌, ◌==◌, bit_and,
  if◌then◌else◌, get_or, set, take,
}

-- RESETREAS after `nrf_power_resetreas_clear` of the bits that were read: none of them is left.
-- `reset_reason_latch`: the register's value, and what the register holds then
unfoldable pub reset_reason_latch : ℕ → (ℕ → ℕ → ℕ) → ℕ × ℕ
reset_reason_latch resetreas clear = (resetreas, clear resetreas resetreas)

abbrev pub fault_magic : ℕ
fault_magic = 0x464c_5431

abbrev pub fault_name_len : ℕ
fault_name_len = 16

-- `fault_rec`, whose name is an array of 16 bytes
pub record FaultRec : Type 0 where
  pub magic : ℕ
  pub reason : ℕ
  pub pc : ℕ
  pub lr : ℕ
  pub bfar : ℕ
  pub thread : List ℕ

-- What `tag_fault_get` writes through its out pointers; the name is the C string in the array.
pub record FaultReport : Type 0 where
  pub reason : ℕ
  pub pc : ℕ
  pub lr : ℕ
  pub bfar : ℕ
  pub name : List ℕ

-- The string in an array, to its first zero.
unfoldable pub string_in : List ℕ → List ℕ
string_in [] = []
string_in (b ∷ bs) = let rest = string_in bs in if b == 0 then [] else b ∷ rest

-- `tag_fault_get`; `none` is its false
unfoldable pub tag_fault_get : FaultRec → FaultRec × Option FaultReport
unfolding string_in
tag_fault_get f =
    if not (f.magic == fault_magic)
    then (f, none)
    else (let f' = record f { thread = set f.thread 15 0 } in
        (
          f',
          some (record {
            reason = f.reason;
            pc = f.pc;
            lr = f.lr;
            bfar = f.bfar;
            name = string_in f'.thread;
          }),
        ))

-- `tag_fault_clear`
unfoldable pub tag_fault_clear : FaultRec → FaultRec
tag_fault_clear f = record f { magic = 0 }

-- One store of the handler.
pub data Store : Type 0 where
  to_reason to_pc to_lr to_bfar to_magic : ℕ → Store
  to_thread : ℕ → ℕ → Store

unfoldable pub store : FaultRec → Store → FaultRec
store f (to_reason v) = record f { reason = v }
store f (to_pc v) = record f { pc = v }
store f (to_lr v) = record f { lr = v }
store f (to_bfar v) = record f { bfar = v }
store f (to_magic v) = record f { magic = v }
store f (to_thread i v) = record f { thread = set f.thread i v }

-- The loop that copies the name, with the rounds left, and the zero after it.
unfoldable pub name_stores : ℕ → ℕ → List ℕ → List Store
name_stores zero i name = to_thread i 0 ∷ []
name_stores (suc n) i [] = to_thread i 0 ∷ []
name_stores (suc n) i (c ∷ name) =
    let more = name_stores n (i + 1) name in
    if c == 0 then to_thread i 0 ∷ [] else to_thread i c ∷ more

-- The stores of the thread's name, which may be NULL.
unfoldable pub thread_stores : Option (List ℕ) → List Store
unfolding name_stores
thread_stores none = to_thread 0 0 ∷ []
thread_stores (some name) = name_stores 15 0 name

-- The saved registers, if there are any.
abbrev pub saved : Option (ℕ × ℕ) → ℕ × ℕ
saved none = (0, 0)
saved (some r) = r

-- The stores of `k_sys_fatal_error_handler` before it halts, in their order.
unfoldable pub fatal_stores : ℕ → Option (ℕ × ℕ) → ℕ → Option (List ℕ) → List Store
unfolding thread_stores
fatal_stores reason esf bfar name =
    to_reason reason
    ∷ to_pc (saved esf).0
    ∷ to_lr (saved esf).1
    ∷ to_bfar bfar
    ∷ (thread_stores name ++ to_magic fault_magic ∷ [])

unfoldable pub store_all : FaultRec → List Store → FaultRec
unfolding store
store_all f [] = f
store_all f (s ∷ ss) = store_all (store f s) ss

-- The boot guard of `tag_wdt_start_boot_guard`: what it returns, with the results of its calls
unfoldable pub start_boot_guard : Bool → Option ℕ → Option ℕ → Option ℕ
start_boot_guard ready init_err channel =
    if not ready then none else elim init_err [ none ↦ channel | some err ↦ none ]
