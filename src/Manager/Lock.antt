-- ===== src/Manager/Lock.antt =====
-- `acquire_manager_lock`, and the end of `main`, with any number of managers on one machine whose
-- system calls interleave. The lock belongs to the file that a process opened, and the kernel
-- takes it back when the process closes the file or ends; the children do not inherit the file, and
-- nothing deletes it.
mod Tests
use digital_twin_based_on_un.Common.{
  ℕ, ◌≡◌, refl, sym, ◌∙◌, Bool, true, false, ◌==◌, ==_iff, List, [], ◌∷◌, ◌++◌, All, Option, none,
  some, if◌then◌else◌, arith, inl, inr, Bool-cases,
}

-- What a process has done of `acquire_manager_lock`; `acquired` when it has returned.
pub data LockPhase : Type 0 where
  absent opened locked truncated acquired : LockPhase

-- `holder` is the process that has the lock, and `content` the process whose number the file
-- shows, if it is not empty.
pub record Machine : Type 0 where
  pub holder : Option ℕ
  pub content : Option ℕ
  pub phase : ℕ → LockPhase

-- A process comes to its next call, or ends: by `manager_lock.close()` or in any other way.
pub data Event : Type 0 where
  goes_on ends : ℕ → Event

abbrev pub at : ℕ → LockPhase → (ℕ → LockPhase) → ℕ → LockPhase
at pid p phases k = if k == pid then p else phases k

abbrev pub holds_lock : ℕ → Option ℕ → Bool
holds_lock pid none = false
holds_lock pid (some holder) = pid == holder

-- `flock` with LOCK_EX and LOCK_NB. On BlockingIOError the file is closed, and the RuntimeError
-- ends the process.
unfoldable pub flock : ℕ → Option ℕ → Machine → Machine
flock pid none m = record m { holder = some pid; phase = at pid locked m.phase }
flock pid (some holder) m = record m { phase = at pid absent m.phase }

-- The next call of the process: open, which keeps what is in the file, flock, truncate, and write
-- with flush.
unfoldable pub next_call : ℕ → LockPhase → Machine → Machine
next_call pid absent m = record m { phase = at pid opened m.phase }
next_call pid opened m = flock pid m.holder m
next_call pid locked m = record m { content = none; phase = at pid truncated m.phase }
next_call pid truncated m = record m { content = some pid; phase = at pid acquired m.phase }
next_call pid acquired m = m

unfoldable pub close : ℕ → Machine → Machine
close pid m = record m {
  holder = if holds_lock pid m.holder then none else m.holder;
  phase = at pid absent m.phase;
}

unfoldable pub step : Machine → Event → Machine
step m (goes_on pid) = next_call pid (m.phase pid) m
step m (ends pid) = close pid m

unfoldable pub run : Machine → List Event → Machine
run m [] = m
run m (e ∷ es) = run (step m e) es

-- No manager runs; the file shows what the last one left.
abbrev pub booted : Option ℕ → Machine
booted content = record { holder = none; content = content; phase = λ pid. absent }

abbrev pub has_lock : LockPhase → Bool
has_lock absent = false
has_lock opened = false
has_lock locked = true
has_lock truncated = true
has_lock acquired = true

-- The kernel and the processes agree on who has the lock, and the file shows the manager that has
-- acquired it.
record IsExclusive (m : Machine) : Type 0 where
  agreed : (pid : ℕ) → has_lock (m.phase pid) ≡ holds_lock pid m.holder
  shown : (pid : ℕ) → m.phase pid ≡ acquired → m.content ≡ some pid

flock-IsExclusive :
    (pid : ℕ) (holder : Option ℕ) (m : Machine)
    → m.phase pid ≡ opened
    → m.holder ≡ holder
    → IsExclusive m
    → IsExclusive (flock pid holder m)
unfolding flock
flock-IsExclusive pid none m e h v = record {
  agreed = λ k. ground (arith, v.agreed k, v.agreed pid);
  shown = λ k has. ground (arith, v.shown k);
}
flock-IsExclusive pid (some holder) m e h v = record {
  agreed = λ k. ground (arith, v.agreed k, v.agreed pid);
  shown = λ k has. ground (arith, v.shown k);
}

next_call-IsExclusive :
    (pid : ℕ) (p : LockPhase) (m : Machine)
    → m.phase pid ≡ p
    → IsExclusive m
    → IsExclusive (next_call pid p m)
unfolding next_call
next_call-IsExclusive pid absent m e v = record {
  agreed = λ k. ground (arith, v.agreed k, v.agreed pid);
  shown = λ k h. ground (arith, v.shown k);
}
next_call-IsExclusive pid opened m e v = flock-IsExclusive pid m.holder m e refl v
next_call-IsExclusive pid locked m e v = record {
  agreed = λ k. ground (arith, v.agreed k, v.agreed pid);
  shown = λ k h. ground (arith, v.agreed k, v.agreed pid);
}
next_call-IsExclusive pid truncated m e v = record {
  agreed = λ k. ground (arith, v.agreed k, v.agreed pid);
  shown = λ k h. ground (arith, v.agreed k, v.agreed pid);
}
next_call-IsExclusive pid acquired m e v = v

close-IsExclusive : (pid : ℕ) (m : Machine) → IsExclusive m → IsExclusive (close pid m)
unfolding close
close-IsExclusive pid m v = record {
  agreed = λ k. ground (arith, v.agreed k, v.agreed pid);
  shown = λ k h. ground (arith, v.shown k);
}

step-IsExclusive : (m : Machine) (e : Event) → IsExclusive m → IsExclusive (step m e)
unfolding step
step-IsExclusive m (goes_on pid) v = next_call-IsExclusive pid (m.phase pid) m refl v
step-IsExclusive m (ends pid) v = close-IsExclusive pid m v

run-IsExclusive : (m : Machine) (es : List Event) → IsExclusive m → IsExclusive (run m es)
unfolding run
run-IsExclusive m [] v = v
run-IsExclusive m (e ∷ es) v = run-IsExclusive (step m e) es (step-IsExclusive m e v)

run-append : (m : Machine) (es fs : List Event) → run m (es ++ fs) ≡ run (run m es) fs
unfolding run
run-append m [] fs = refl
run-append m (e ∷ es) fs = run-append (step m e) es fs

-- Whether a process goes on.
abbrev pub IsNotEnd : ℕ → Event → Type 0
IsNotEnd a (goes_on pid) = Unit {0}
IsNotEnd a (ends pid) = (pid == a) ≡ false

flock-keeps :
    (a pid : ℕ) (holder : Option ℕ) (m : Machine)
    → m.phase pid ≡ opened
    → m.phase a ≡ acquired
    → (flock pid holder m).phase a ≡ acquired
unfolding flock
flock-keeps a pid none m e has = ground arith
flock-keeps a pid (some holder) m e has = ground arith

next_call-keeps :
    (a pid : ℕ) (p : LockPhase) (m : Machine)
    → m.phase pid ≡ p
    → m.phase a ≡ acquired
    → (next_call pid p m).phase a ≡ acquired
unfolding next_call
next_call-keeps a pid absent m e has = ground arith
next_call-keeps a pid opened m e has = flock-keeps a pid m.holder m e has
next_call-keeps a pid locked m e has = ground arith
next_call-keeps a pid truncated m e has = ground arith
next_call-keeps a pid acquired m e has = has

step-acquired :
    (a : ℕ) (m : Machine) (e : Event)
    → IsExclusive m
    → m.phase a ≡ acquired
    → IsNotEnd a e
    → (step m e).phase a ≡ acquired
unfolding step close
step-acquired a m (goes_on pid) v has on = next_call-keeps a pid (m.phase pid) m refl has
step-acquired a m (ends pid) v has on = ground arith

run-keeps :
    (a : ℕ) (m : Machine) (es : List Event)
    → IsExclusive m
    → m.phase a ≡ acquired
    → All (IsNotEnd a) es
    → (run m es).phase a ≡ acquired
unfolding run
run-keeps a m [] v has on = has
run-keeps a m (e ∷ es) v has on =
    run-keeps a (step m e) es (step-IsExclusive m e v) (step-acquired a m e v has on.0) on.1

booted-IsExclusive : (content : Option ℕ) → IsExclusive (booted content)
booted-IsExclusive content = record { agreed = λ k. refl; shown = λ k h. cc }

abbrev pub is_acquired : LockPhase → Bool
is_acquired acquired = true
is_acquired absent = false
is_acquired opened = false
is_acquired locked = false
is_acquired truncated = false

is_acquired-eq : (p : LockPhase) → is_acquired p ≡ true → p ≡ acquired
is_acquired-eq absent h = cc
is_acquired-eq opened h = cc
is_acquired-eq locked h = cc
is_acquired-eq truncated h = cc
is_acquired-eq acquired h = refl

has_lock-holder : (m : Machine) (a : ℕ) → IsExclusive m → m.phase a ≡ acquired → m.holder ≡ some a
has_lock-holder m a v has = ground (arith, v.agreed a)

only :
    (m : Machine) (a b : ℕ)
    → IsExclusive m
    → m.phase a ≡ acquired
    → is_acquired (m.phase b) ≡ (b == a)
only m a b v has = elim (Bool-cases (is_acquired (m.phase b))) [
  | inl got ↦
      let shows_a = v.shown a has in
      let shows_b = v.shown b (is_acquired-eq (m.phase b) got) in
      let same : b ≡ a = cc in got ∙ sym ((==_iff b a).1 same)
  | inr not_got ↦ ground arith
]

-- Whatever the file shows at first, and however the calls of any number of managers and their ends
-- interleave: from when a manager has acquired the lock until it ends, by a close or in any other
-- way, it has the lock, no other manager has acquired it, and the file shows its process number.
pub run-acquired :
    (content : Option ℕ) (es fs : List Event) (a b : ℕ)
    → (run (booted content) es).phase a ≡ acquired
    → All (IsNotEnd a) fs
    → let m = run (booted content) (es ++ fs) in
      (m.holder ≡ some a) × (is_acquired (m.phase b) ≡ (b == a)) × (m.content ≡ some a)
run-acquired content es fs a b has on =
    let first = run (booted content) es in
    let v = run-IsExclusive (booted content) es (booted-IsExclusive content) in
    let w = run-IsExclusive first fs v in
    let kept = run-keeps a first fs v has on in
    rw (run-append (booted content) es fs)
      (has_lock-holder (run first fs) a w kept, only (run first fs) a b w kept, w.shown a kept)
